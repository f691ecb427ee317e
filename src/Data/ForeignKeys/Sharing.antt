-- ===== src/Data/ForeignKeys/Sharing.antt =====
-- A copy of a manager shares its references, a clone has its own.
use server_components.Common.{
  ℕ, zero, suc, ◌<◌, ◌≡◌, refl, sym, ◌∙◌, ◌≢◌, Bool, some, List, [], ◌∷◌, ◌++◌, arith, length,
  get_elem?, set,
}
use server_components.Data.ForeignKeys.{
  TableColumnPair, Refs, Result, ok, invalid_argument, add_foreign_key_reference, Heap,
  ForeignKeyManager, deref, copy, clone, manager_add,
}

module _ {ℓ} {A : Type ℓ} where
  get_elem?-append_left :
      (xs ys : List A) (i : ℕ) → i < length xs → get_elem? (xs ++ ys) i ≡ get_elem? xs i
  get_elem?-append_left [] ys i h = absurd (omega arith)
  get_elem?-append_left (x ∷ xs) ys zero h = refl
  get_elem?-append_left (x ∷ xs) ys (suc i) h = get_elem?-append_left xs ys i (omega arith)

  get_elem?-append_length : (xs : List A) (x : A) → get_elem? (xs ++ x ∷ []) (length xs) ≡ some x
  get_elem?-append_length [] x = refl
  get_elem?-append_length (y ∷ xs) x = get_elem?-append_length xs x

  get_elem?-set_self :
      (xs : List A) (i : ℕ) (v : A) → i < length xs → get_elem? (set xs i v) i ≡ some v
  get_elem?-set_self [] i v h = absurd (omega arith)
  get_elem?-set_self (x ∷ xs) zero v h = refl
  get_elem?-set_self (x ∷ xs) (suc i) v h = get_elem?-set_self xs i v (omega arith)

  get_elem?-set_ne :
      (xs : List A) (i j : ℕ) (v : A) → i ≢ j → get_elem? (set xs i v) j ≡ get_elem? xs j
  get_elem?-set_ne [] i j v h = refl
  get_elem?-set_ne (x ∷ xs) zero zero v h = absurd (h refl)
  get_elem?-set_ne (x ∷ xs) zero (suc j) v h = refl
  get_elem?-set_ne (x ∷ xs) (suc i) zero v h = refl
  get_elem?-set_ne (x ∷ xs) (suc i) (suc j) v h = get_elem?-set_ne xs i j v (λ e. h (omega arith))

-- An addition through one manager leaves the list of every other one alone.
manager_add-other :
    (parent child : TableColumnPair) (nullable : Bool) (m other : ForeignKeyManager) (h : Heap)
    → m ≢ other
    → deref (manager_add parent child nullable m h).1 other ≡ deref h other
unfolding manager_add
manager_add-other parent child nullable m other h differs =
    Result-split (add_foreign_key_reference parent child nullable (deref h m))
  where
    Result-split :
        (r : Result Refs)
        → deref
            (elim r as (λ _. Result (Unit {0}) × Heap) [
              | ok refs ↦ (ok tt, set h m refs)
              | invalid_argument ↦ (invalid_argument, h)
            ]).1
            other
          ≡ deref h other
    Result-split (ok refs) = rw (get_elem?-set_ne h m other refs differs, deref)
    Result-split invalid_argument = refl

module _ (parent child : TableColumnPair) (nullable : Bool) (m : ForeignKeyManager) (h : Heap)
    (live : m < length h) where
  -- What is added through a manager is seen through its copy, as the shared list itself.
  pub copy_sees_add :
      (refs : Refs)
      → add_foreign_key_reference parent child nullable (deref h m) ≡ ok refs
      → deref (manager_add parent child nullable m h).1 (copy m h).0 ≡ refs
  unfolding copy manager_add
  copy_sees_add refs added = ground (arith, get_elem?-set_self h m refs live)

  -- A clone starts with the same references, is a manager that nobody else holds, and keeps its list
  -- whatever is later added through the original; so does the original when the clone grows.
  pub clone_is_independent :
      let (c, h') = clone m h in
      (deref h' c ≡ deref h m)
      × (c ≢ m)
      × (deref h' m ≡ deref h m)
      × (deref (manager_add parent child nullable m h').1 c ≡ deref h m)
      × (deref (manager_add parent child nullable c h').1 m ≡ deref h m)
  unfolding clone
  clone_is_independent =
      let h' : Heap = h ++ deref h m ∷ [] in
      let kept : deref h' (length h) ≡ deref h m =
        rw (get_elem?-append_length h (deref h m), deref) in
      let old : deref h' m ≡ deref h m =
        rw (get_elem?-append_left h (deref h m ∷ []) m live, deref) in
      let differs : m ≢ length h = omega arith in
      (
        kept,
        omega arith,
        old,
        manager_add-other parent child nullable m (length h) h' differs ∙ kept,
        manager_add-other parent child nullable (length h) m h' (λ e. differs (sym e)) ∙ old,
      )
