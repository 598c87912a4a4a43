-- ===== src/Plugins/Catalog.antt =====
-- The permissions that `PermissionCatalog` of server/internal/plugins/manager.go lists.
use xmdm.Common.{
  ◌≡◌, refl, sym, ◌∙◌, inl, inr, List, [], ◌∷◌, String, Bool, true, false, Option, none, some,
  if◌then◌else◌, str_eq, eq_iff, trim_space, any_of, Bool-cases, Among, subst, arith,
}
use xmdm.Common.Maps.{lookup, put, lookup-put, lookup-put_other}
use xmdm.Auth.{all_permissions, has_permission}
use xmdm.Plugins.{
  PermissionSet, DeviceAction, CommandType, Plugin, Manager, less, insert_text, sort_texts, keys,
  add_permission, add_permissions, add_actions, add_types, add_plugins, base_catalog,
  permission_catalog,
}

either_first :
    (a b c : Bool)
    → (if b then true else if a then true else c) ≡ (if a then true else if b then true else c)
either_first a b c = ground arith

nothing : Path (Option (Unit {0})) none (some tt) → ⊥
nothing h = ground arith

not_both : (b : Bool) → b ≡ false → b ≡ true → ⊥
not_both b f t = ground arith

different_sym : (i j : String) → str_eq i j ≡ false → str_eq j i ≡ false
different_sym i j d = elim (Bool-cases (str_eq j i)) [
  | inl e ↦ absurd (not_both (str_eq i j) d ((eq_iff i j).1 (sym ((eq_iff j i).0 e))))
  | inr e ↦ e
]

any_of-insert_text :
    (p : String → Bool) (x : String) (xs : List String)
    → any_of p (insert_text x xs) ≡ any_of p (x ∷ xs)
unfolding insert_text
any_of-insert_text p x [] = refl
any_of-insert_text p x (y ∷ ys) = elim (Bool-cases (less y x)) [
  | inr after ↦ rw after refl
  | inl before ↦ rw (before, any_of-insert_text p x ys) (either_first (p x) (p y) (any_of p ys))
]

any_of-sort_texts : (p : String → Bool) (xs : List String) → any_of p (sort_texts xs) ≡ any_of p xs
unfolding sort_texts
any_of-sort_texts p [] = refl
any_of-sort_texts p (x ∷ xs) =
    any_of-insert_text p x (sort_texts xs) ∙ rw (any_of-sort_texts p xs) refl

-- The permission is in the set.
abbrev Held : String → PermissionSet → Type 0
Held perm catalog = lookup perm catalog ≡ some tt

any_of-keys :
    (perm : String) (catalog : PermissionSet)
    → Held perm catalog
    → any_of (λ k. str_eq k perm) (keys catalog) ≡ true
unfolding lookup keys
any_of-keys perm [] held = absurd (nothing held)
any_of-keys perm (e ∷ m) held = elim (Bool-cases (str_eq e.0 perm)) [
  | inl here ↦ rw here refl
  | inr there ↦ rw there (any_of-keys perm m (rw there at held))
]

Held-put :
    (perm p : String) (catalog : PermissionSet) → Held perm catalog → Held perm (put p tt catalog)
Held-put perm p catalog held = elim (Bool-cases (str_eq perm p)) [
  | inl same ↦
      subst (λ k. Held k (put p tt catalog)) (sym ((eq_iff perm p).0 same))
        (lookup-put p tt catalog)
  | inr other ↦ lookup-put_other perm p tt catalog other (different_sym perm p other) ∙ held
]

Held-add_permission :
    (perm p : String) (catalog : PermissionSet)
    → Held perm catalog
    → Held perm (add_permission p catalog)
unfolding add_permission
Held-add_permission perm p catalog held = elim (Bool-cases (str_eq (trim_space p) "")) [
  | inl blank ↦ rw blank held
  | inr named ↦ rw named (Held-put perm (trim_space p) catalog held)
]

Held-add_permissions :
    (perm : String) (ps : List String) (catalog : PermissionSet)
    → Held perm catalog
    → Held perm (add_permissions ps catalog)
unfolding add_permissions
Held-add_permissions perm [] catalog held = held
Held-add_permissions perm (p ∷ ps) catalog held =
    Held-add_permissions perm ps (add_permission p catalog)
      (Held-add_permission perm p catalog held)

Held-add_actions :
    (perm : String) (actions : List DeviceAction) (catalog : PermissionSet)
    → Held perm catalog
    → Held perm (add_actions actions catalog)
unfolding add_actions
Held-add_actions perm [] catalog held = held
Held-add_actions perm (a ∷ actions) catalog held =
    Held-add_actions perm actions (add_permission a.required_permission catalog)
      (Held-add_permission perm a.required_permission catalog held)

Held-add_types :
    (perm : String) (types : List CommandType) (catalog : PermissionSet)
    → Held perm catalog
    → Held perm (add_types types catalog)
unfolding add_types
Held-add_types perm [] catalog held = held
Held-add_types perm (c ∷ types) catalog held =
    Held-add_types perm types (add_permission c.required_permission catalog)
      (Held-add_permission perm c.required_permission catalog held)

-- What the loop over the plugins does with one of them.
abbrev with_plugin : Plugin → PermissionSet → PermissionSet
with_plugin p catalog =
    add_types p.command_types (add_actions p.device_actions (add_permissions p.permissions catalog))

Held-with_plugin :
    (perm : String) (p : Plugin) (catalog : PermissionSet)
    → Held perm catalog
    → Held perm (with_plugin p catalog)
Held-with_plugin perm p catalog held = Held-add_types perm p.command_types _ (
    Held-add_actions perm p.device_actions _ (Held-add_permissions perm p.permissions catalog held))

Held-add_plugins :
    (perm : String) (plugins : List Plugin) (catalog : PermissionSet)
    → Held perm catalog
    → Held perm (add_plugins plugins catalog)
unfolding add_plugins
Held-add_plugins perm [] catalog held = held
Held-add_plugins perm (p ∷ plugins) catalog held =
    Held-add_plugins perm plugins (with_plugin p catalog) (Held-with_plugin perm p catalog held)

add_types-Held :
    (c : CommandType) (types : List CommandType) (catalog : PermissionSet)
    → Among c types
    → str_eq (trim_space c.required_permission) "" ≡ false
    → Held (trim_space c.required_permission) (add_types types catalog)
unfolding add_types add_permission
add_types-Held c [] catalog offers named = absurd offers
add_types-Held c (d ∷ types) catalog (inl same) named =
    Held-add_types (trim_space c.required_permission) types
      (add_permission d.required_permission catalog)
      (subst
        (λ (x : CommandType).
          Held (trim_space c.required_permission) (add_permission x.required_permission catalog))
        same (rw named (lookup-put (trim_space c.required_permission) tt catalog)))
add_types-Held c (d ∷ types) catalog (inr later) named =
    add_types-Held c types (add_permission d.required_permission catalog) later named

add_plugins-Held :
    (c : CommandType) (p : Plugin) (plugins : List Plugin) (catalog : PermissionSet)
    → Among p plugins
    → Among c p.command_types
    → str_eq (trim_space c.required_permission) "" ≡ false
    → Held (trim_space c.required_permission) (add_plugins plugins catalog)
unfolding add_plugins
add_plugins-Held c p [] catalog registered offers named = absurd registered
add_plugins-Held c p (q ∷ plugins) catalog (inl same) offers named =
    Held-add_plugins (trim_space c.required_permission) plugins (with_plugin q catalog) (
      add_types-Held c q.command_types _
        (subst (λ (x : Plugin). Among c x.command_types) same offers) named)
add_plugins-Held c p (q ∷ plugins) catalog (inr later) offers named =
    add_plugins-Held c p plugins (with_plugin q catalog) later offers named

-- A permission that a command type of a registered plugin requires is in the catalog.
pub permission_catalog-has :
    (m : Manager) (p : Plugin) (c : CommandType)
    → Among p m.plugins
    → Among c p.command_types
    → str_eq (trim_space c.required_permission) "" ≡ false
    → has_permission (permission_catalog (some m)) (trim_space c.required_permission) ≡ true
unfolding permission_catalog has_permission
permission_catalog-has m p c registered offers named =
    let catalog = base_catalog all_permissions [] in
    let perm = trim_space c.required_permission in
    any_of-sort_texts (λ k. str_eq k perm) (keys (add_plugins m.plugins catalog))
    ∙ any_of-keys perm (add_plugins m.plugins catalog)
        (add_plugins-Held c p m.plugins catalog registered offers named)
