-- ===== src/Scim/Http/Entra/Agrees.antt =====
-- The operations of the Entra dialect against userMatchesRemote, and against the members of a group.
use scimtest.Prelude.{
  String, Bool, true, false, not, ◌&&◌, ◌||◌, Option, none, some, List, [], ◌∷◌, ◌++◌, ◌==◌, ◌≡◌,
  refl, trim_space, trim_space_idem, trim_space-empty, from_option, arith, eq_iff, Bool-cases, inl,
  inr, ap, ◌∙◌, if◌then◌else◌, filter, map,
}
use scimtest.Scim.Resource.{
  no_enterprise, ScimUserResource, ScimGroupResource, ScimEnterpriseUser, ScimEmail, ScimName,
  user_matches_remote, enterprise_matches_remote, scim_manager_value, first_scim_email,
  scim_name_parts, same,
}
use scimtest.Scim.Http.{PatchValue, no_value, text, members, user, group, ScimPatchOperation}
use scimtest.Scim.Http.Entra.{
  set_value, active_operations, enterprise_operations, entra_user_operations, has_member,
  added_members, removed_members, bare, members_operation, operation, entra_group_operations,
}

abbrev pub is_nil {ℓ} : {A : Type ℓ} → List A → Bool
is_nil [] = true
is_nil (x ∷ xs) = false

is_nil-append : (xs ys : List ScimPatchOperation) → is_nil (xs ++ ys) ≡ is_nil xs && is_nil ys
is_nil-append [] ys = refl
is_nil-append (x ∷ xs) ys = refl

is_nil-set_value :
    (path want have : String) → is_nil (set_value path want have) ≡ (want == trim_space have)
unfolding set_value
is_nil-set_value path want have = ground arith

is_nil-active : (d r : Bool) → is_nil (active_operations d r) ≡ same d r
unfolding active_operations
is_nil-active d r = ground arith

trim-scim_manager_value :
    (m : Option String) → trim_space (scim_manager_value m) ≡ scim_manager_value m
unfolding scim_manager_value
trim-scim_manager_value none = trim_space-empty
trim-scim_manager_value (some v) = trim_space_idem v

trim_manager :
    (e : ScimEnterpriseUser)
    → trim_space (scim_manager_value e.manager) ≡ scim_manager_value e.manager
trim_manager e = trim-scim_manager_value e.manager

trim-first_scim_email :
    (es : List ScimEmail) → trim_space (first_scim_email es) ≡ first_scim_email es
unfolding first_scim_email
trim-first_scim_email [] = trim_space-empty
trim-first_scim_email (e ∷ es) = ground (arith, trim-first_scim_email es, trim_space_idem e.value)

trim-given : (n : Option ScimName) → trim_space (scim_name_parts n).0 ≡ (scim_name_parts n).0
unfolding scim_name_parts
trim-given none = trim_space-empty
trim-given (some n) = trim_space_idem n.given_name

trim-family : (n : Option ScimName) → trim_space (scim_name_parts n).1 ≡ (scim_name_parts n).1
unfolding scim_name_parts
trim-family none = trim_space-empty
trim-family (some n) = trim_space_idem n.family_name

is_nil-enterprise :
    (d r : Option ScimEnterpriseUser)
    → is_nil (enterprise_operations d r) ≡ enterprise_matches_remote d r
unfolding enterprise_operations enterprise_matches_remote
is_nil-enterprise none r = refl
is_nil-enterprise (some d) r =
    simp (is_nil-append, is_nil-set_value)
      (ground (arith, trim_manager (from_option r no_enterprise)))

-- PatchEntraUser has nothing to send exactly when reconciliation finds the user in sync.
pub entra_user_operations-matches :
    (d r : ScimUserResource) → is_nil (entra_user_operations d r) ≡ user_matches_remote d r
unfolding entra_user_operations user_matches_remote
entra_user_operations-matches d r =
    simp
      (
        is_nil-append,
        is_nil-set_value,
        is_nil-active,
        is_nil-enterprise,
        trim-given r.name,
        trim-family r.name,
        trim-first_scim_email r.emails,
      )
      (ground arith)

has_member-append :
    (xs ys : List String) (v : String)
    → has_member (xs ++ ys) v ≡ has_member xs v || has_member ys v
has_member-append [] ys v = refl
has_member-append (x ∷ xs) ys v = ground (arith, has_member-append xs ys v)

has_member-filter :
    (p : String → Bool) (xs : List String) (v : String)
    → has_member (filter p xs) v ≡ has_member xs v && p v
has_member-filter p [] v = refl
has_member-filter p (x ∷ xs) v = elim (Bool-cases (x == v)) [
  | inl h ↦
      let e : x ≡ v = grind (arith, eq_iff) in
      let q : p x ≡ p v = ap p e in ground (arith, has_member-filter p xs v, h, q)
  | inr h ↦ ground (arith, has_member-filter p xs v, h)
]

-- A group on a server: its name and the values of its members.
pub record Listed : Type 0 where
  pub name : String
  pub values : List String

-- What a server does with an operation on a group: Replace sets the name, Add adds members, and Remove
-- takes those that it names.
text_of : PatchValue → String → String
text_of (text s) old = s
text_of (members ms) old = old
text_of (user r) old = old
text_of (group r) old = old
text_of no_value old = old

values_of : PatchValue → List String
values_of (text s) = []
values_of (members ms) = map (λ m. m.value) ms
values_of (user r) = []
values_of (group r) = []
values_of no_value = []

abbrev without : List String → List String → List String
without dropped = filter (λ w. not (has_member dropped w))

change : String → List String → List String → List String
change op vs old = if op == "Add" then old ++ vs else if op == "Remove" then without vs old else old

unfoldable pub apply : List ScimPatchOperation → Listed → Listed
unfolding text_of values_of change
apply [] l = l
apply (o ∷ os) l = apply os (record {
  name = if o.path == "displayName" && o.op == "Replace" then text_of o.value l.name else l.name;
  values = if o.path == "members" then change o.op (values_of o.value) l.values else l.values;
})

apply-append :
    (os ps : List ScimPatchOperation) (l : Listed) → apply (os ++ ps) l ≡ apply ps (apply os l)
unfolding apply
apply-append [] ps l = refl
apply-append (o ∷ os) ps l = apply-append os ps _

values-bare : (vs : List String) → map (λ m. m.value) (map bare vs) ≡ vs
unfolding bare
values-bare [] = refl
values-bare (v ∷ vs) = ap (λ ws. v ∷ ws) (values-bare vs)

has_member-add :
    (vs : List String) (l : Listed) (v : String)
    → has_member (apply (members_operation "Add" vs) l).values v
      ≡ has_member l.values v || has_member vs v
unfolding members_operation apply values_of change
has_member-add [] l v = ground arith
has_member-add (w ∷ vs) l v = rw (values-bare (w ∷ vs)) (has_member-append l.values (w ∷ vs) v)

has_member-remove :
    (vs : List String) (l : Listed) (v : String)
    → has_member (apply (members_operation "Remove" vs) l).values v
      ≡ has_member l.values v && not (has_member vs v)
unfolding members_operation apply values_of change
has_member-remove [] l v = ground arith
has_member-remove (w ∷ vs) l v =
    ap (λ ws. has_member (without ws l.values) v) (values-bare (w ∷ vs))
    ∙ has_member-filter (λ u. not (has_member (w ∷ vs) u)) l.values v

name-members :
    (op : String) (vs : List String) (l : Listed)
    → (apply (members_operation op vs) l).name ≡ l.name
unfolding members_operation apply
name-members op [] l = refl
name-members op (v ∷ vs) l = refl

-- The group as the server lists it, with its texts trimmed.
abbrev pub listed : ScimGroupResource → Listed
listed r = record {
  name = trim_space r.display_name;
  values = map (λ m. trim_space m.value) r.members;
}

module _ (d r : ScimGroupResource) where
  rename : List ScimPatchOperation
  rename =
      if d.display_name == trim_space r.display_name
      then []
      else operation "Replace" "displayName" (text d.display_name) ∷ []

  name-rename : (apply rename (listed r)).name ≡ d.display_name
  unfolding rename apply text_of
  name-rename = ground (arith, eq_iff d.display_name (trim_space r.display_name))

  values-rename : (apply rename (listed r)).values ≡ (listed r).values
  unfolding rename apply
  values-rename = ground arith

  -- Applied to a group as the server lists it, with its texts trimmed, the operations that
  -- PatchEntraGroup sends, in their order, leave the desired display name and exactly the values of
  -- the desired members. What an Add, a Remove and a Replace do is described by `apply`.
  pub entra_group_operations-members :
      (v : String)
      → let after = apply (entra_group_operations d r) (listed r) in
        (after.name ≡ d.display_name)
        × (has_member after.values v ≡ has_member (map (λ m. m.value) d.members) v)
  unfolding entra_group_operations added_members removed_members rename
  entra_group_operations-members v =
      let adds = members_operation "Add" (added_members d r) in
      let removes = members_operation "Remove" (removed_members d r) in
      let renamed = apply rename (listed r) in
      let want = map (λ m. m.value) d.members in
      let have = map (λ m. trim_space m.value) r.members in
      let steps : apply (entra_group_operations d r) (listed r)
          ≡ apply removes (apply adds renamed) =
        apply-append rename (adds ++ removes) (listed r) ∙ apply-append adds removes renamed in
      (
        ap (λ l. l.name) steps
            ∙ name-members "Remove" (removed_members d r) (apply adds renamed)
            ∙ name-members "Add" (added_members d r) renamed
            ∙ name-rename,
        ap (λ l. has_member l.values v) steps
            ∙ simp (has_member-remove, has_member-add, values-rename, has_member-filter)
                (ground arith),
      )
