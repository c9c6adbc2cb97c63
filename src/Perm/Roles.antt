-- ===== src/Perm/Roles.antt =====
-- Role tests of perm/engine.go: hasRole, CheckRoles and rbacCheck against their meaning.
use orjanda.Prelude.{
  String, true, ◌≡◌, refl, ◌⊎◌, inl, inr, List, [], ◌∷◌, Memᴰ, Bool-cases, equal_fold,
  equal_fold_sym, equal_fold_trans, arith,
}
use orjanda.Schema.{DocPermission}
use orjanda.Perm.{has_role, grants, rbac_loop}

-- The roles hold a name, up to the case of its letters.
abbrev pub Holds : List String → String → Type 0
Holds roles name = (r : String) × Memᴰ r roles × (equal_fold r name ≡ true)

pub has_role→Holds :
    (roles : List String) (name : String) → has_role roles name ≡ true → Holds roles name
unfolding has_role
has_role→Holds (r ∷ roles) name h = elim (Bool-cases (equal_fold r name)) [
  | inl e ↦ (r, Memᴰ.head refl, e)
  | inr e ↦ let (s, m, q) = has_role→Holds roles name (ground arith) in (s, Memᴰ.tail m, q)
]
has_role→Holds [] name h = cc

pub Holds→has_role :
    (r : String) (roles : List String) (name : String)
    → Memᴰ r roles
    → equal_fold r name ≡ true
    → has_role roles name ≡ true
unfolding has_role
Holds→has_role r [] name m e = elim m [ ]
Holds→has_role r (s ∷ roles) name (Memᴰ.head p) e = rw (← p) (ground arith)
Holds→has_role r (s ∷ roles) name (Memᴰ.tail m) e = ground (arith, Holds→has_role r roles name m e)

-- Role names that differ only in case are held together.
has_role_fold :
    (roles : List String) (a b : String)
    → equal_fold a b ≡ true
    → has_role roles a ≡ has_role roles b
unfolding has_role
has_role_fold [] a b e = refl
has_role_fold (r ∷ roles) a b e = ground (
  arith,
  has_role_fold roles a b e,
  equal_fold_trans r a b,
  equal_fold_trans r b a,
  equal_fold_sym a b,
)

-- A role list admits the roles: it names "*", or a role that is held.
abbrev pub Admits : List String → List String → Type 0
Admits roles allowed = (a : String) × Memᴰ a allowed × ((a ≡ "*") ⊎ Holds roles a)

-- A permission entry for a held role grants the action.
abbrev pub HasGrant : List String → String → List DocPermission → Type 0
HasGrant roles action perms =
    (p : DocPermission) × Memᴰ p perms × Holds roles p.role × (grants p action ≡ true)

pub rbac_loop→HasGrant :
    (roles : List String) (action : String) (perms : List DocPermission)
    → rbac_loop roles action perms ≡ true
    → HasGrant roles action perms
unfolding rbac_loop
rbac_loop→HasGrant roles action (p ∷ ps) h = elim (Bool-cases (has_role roles p.role)) [
  | inl q ↦ elim (Bool-cases (grants p action)) [
    | inl g ↦ (p, Memᴰ.head refl, has_role→Holds roles p.role q, g)
    | inr g ↦
        let (b, m, r, k) = rbac_loop→HasGrant roles action ps (ground arith) in
        (b, Memᴰ.tail m, r, k)
  ]
  | inr q ↦
      let (b, m, r, k) = rbac_loop→HasGrant roles action ps (ground arith) in (b, Memᴰ.tail m, r, k)
]
rbac_loop→HasGrant roles action [] h = cc

pub HasGrant→rbac_loop :
    (roles : List String) (action : String) (perms : List DocPermission) (p : DocPermission)
    → Memᴰ p perms
    → Holds roles p.role
    → grants p action ≡ true
    → rbac_loop roles action perms ≡ true
unfolding rbac_loop
HasGrant→rbac_loop roles action [] p m h g = elim m [ ]
HasGrant→rbac_loop roles action (q ∷ qs) p (Memᴰ.head e) (r, m, f) g =
    rw (← e) (ground (arith, Holds→has_role r roles p.role m f))
HasGrant→rbac_loop roles action (q ∷ qs) p (Memᴰ.tail m) h g =
    ground (arith, HasGrant→rbac_loop roles action qs p m h g)
