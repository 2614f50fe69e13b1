-- ===== src/Watch/Layout.antt =====
-- Where `get_index_of_sc` finds a chain, and what a write there does, in a list of slots that holds one
-- slot for each of the chains `xs` and then empty ones.
use nfvnice_source.Watch.{Slot, no_slot, index_from, get_index_of_sc, at_slot}
use nfvnice_source.Watch.Tally.{member, Distinct}
use nfvnice_source.Prelude.{
  ℕ, zero, suc, ◌+◌, ◌≤◌, ◌<◌, ◌≡◌, inl, inr, refl, sym, ap, ap₂, subst, lt→ltb, ◌∙◌, List, [], ◌∷◌,
  ◌++◌, map, some, true, false, Bool-cases, ==_iff, arith, length, length-append, length-map,
  length-replicate, replicate, get_or, set, update, ltb, ◌==◌, if◌then◌else◌,
}

-- The slots of the chains `xs`, followed by `k` empty ones.
abbrev pub laid_out : (ℕ → Slot) → List ℕ → ℕ → List Slot
laid_out f xs k = map f xs ++ replicate k no_slot

-- The place of `c` among `xs`, where it is one of them.
pub position : ℕ → List ℕ → ℕ
position c [] = 0
position c (x ∷ xs) = if x == c then 0 else suc (position c xs)

position-lt : (c : ℕ) (xs : List ℕ) → member c xs ≡ true → position c xs < length xs
unfolding position member
position-lt c [] m = cc
position-lt c (x ∷ xs) m = ground (arith, position-lt c xs)

pub position-append :
    (c : ℕ) (xs : List ℕ) → member c xs ≡ false → position c (xs ++ c ∷ []) ≡ length xs
unfolding position member
position-append c [] m = ground arith
position-append c (x ∷ xs) m = ground (arith, position-append c xs)

index-empty : (c i free k : ℕ) → free ≤ i → index_from c i free (replicate k no_slot) ≡ free
unfolding index_from
index-empty c i free zero h = refl
index-empty c i free (suc k) h = ground (arith, index-empty c (i + 1) free k)

module _ (f : ℕ → Slot) (c : ℕ) where
  pub index-old :
      (xs : List ℕ) (k i free : ℕ)
      → ((e : ℕ) → (f e).sc ≡ some e)
      → member c xs ≡ true
      → index_from c i free (laid_out f xs k) ≡ i + position c xs
  unfolding index_from member position
  index-old [] k i free own m = cc
  index-old (x ∷ xs) k i free own m =
      rw (own x, index_from) (ground (arith, index-old xs k (i + 1) free own))

  index-new :
      (xs : List ℕ) (k i free : ℕ)
      → ((e : ℕ) → (f e).sc ≡ some e)
      → member c xs ≡ false
      → i + length xs < free
      → index_from c i free (laid_out f xs (suc k)) ≡ i + length xs
  unfolding index_from member
  index-new [] k i free own m h = ground (arith, index-empty c (i + 1) i k)
  index-new (x ∷ xs) k i free own m h =
      rw (own x, index_from) (ground (arith, index-new xs k (i + 1) free own))

  map-update : (xs : List ℕ) (v : Slot) → member c xs ≡ false → map (update f c v) xs ≡ map f xs
  unfolding member
  map-update [] v m = refl
  map-update (x ∷ xs) v m = ground (arith, map-update xs v)

  set-old :
      (xs : List ℕ) (k : ℕ) (v : Slot)
      → Distinct xs
      → member c xs ≡ true
      → set (laid_out f xs k) (position c xs) v ≡ laid_out (update f c v) xs k
  unfolding member position
  set-old [] k v d m = cc
  set-old (x ∷ xs) k v d m = elim (Bool-cases (x == c)) [
    | inl here ↦ rw here (
        ap (λ (l : List Slot). v ∷ (l ++ replicate k no_slot))
          (sym
            (map-update xs v (subst (λ (z : ℕ). member z xs ≡ false) ((==_iff x c).0 here) d.0))))
    | inr there ↦ rw there (ap (λ l. f x ∷ l) (set-old xs k v d.1 (ground arith)))
  ]

  get-old :
      (xs : List ℕ) (k : ℕ)
      → member c xs ≡ true
      → get_or (laid_out f xs k) (position c xs) no_slot ≡ f c
  unfolding member position
  get-old [] k m = cc
  get-old (x ∷ xs) k m = ground (arith, get-old xs k)

  set-new :
      (xs : List ℕ) (k : ℕ) (v : Slot)
      → member c xs ≡ false
      → set (laid_out f xs (suc k)) (length xs) v ≡ laid_out (update f c v) (xs ++ c ∷ []) k
  unfolding member
  set-new [] k v m = ground arith
  set-new (x ∷ xs) k v m = ground (arith, set-new xs k v)

  get-new : (xs : List ℕ) (k : ℕ) → get_or (laid_out f xs (suc k)) (length xs) no_slot ≡ no_slot
  get-new [] k = refl
  get-new (x ∷ xs) k = get-new xs k

pub length-laid_out :
    (f : ℕ → Slot) (xs : List ℕ) (k : ℕ) → length (laid_out f xs k) ≡ length xs + k
length-laid_out f xs k =
    length-append (map f xs) (replicate k no_slot)
    ∙ ap₂ ◌+◌ (length-map xs f) (length-replicate k no_slot)

module _ (f : ℕ → Slot) (c : ℕ) (xs : List ℕ) (k : ℕ) where
  pub get_index_of_sc-old :
      ((e : ℕ) → (f e).sc ≡ some e)
      → member c xs ≡ true
      → get_index_of_sc c (laid_out f xs k) ≡ position c xs
  unfolding get_index_of_sc
  get_index_of_sc-old own old = index-old f c xs k 0 _ own old ∙ omega arith

  pub get_index_of_sc-new :
      ((e : ℕ) → (f e).sc ≡ some e)
      → member c xs ≡ false
      → get_index_of_sc c (laid_out f xs (suc k)) ≡ length xs
  unfolding get_index_of_sc
  get_index_of_sc-new own new =
      index-new f c xs k 0 _ own new (omega (arith, length-laid_out f xs (suc k))) ∙ omega arith

  pub at_slot-old :
      (g : Slot → Slot)
      → Distinct xs
      → member c xs ≡ true
      → at_slot (position c xs) g (laid_out f xs k) ≡ laid_out (update f c (g (f c))) xs k
  unfolding at_slot
  at_slot-old g d old = rw inside (rw (get-old f c xs k old) (set-old f c xs k (g (f c)) d old))
    where
      inside : ltb (position c xs) (length (laid_out f xs k)) ≡ true
      inside = lt→ltb _ _ (omega (arith, length-laid_out f xs k, position-lt c xs old))

  pub at_slot-new :
      (g : Slot → Slot)
      → member c xs ≡ false
      → at_slot (length xs) g (laid_out f xs (suc k))
        ≡ laid_out (update f c (g no_slot)) (xs ++ c ∷ []) k
  unfolding at_slot
  at_slot-new g new = rw inside (rw (get-new f c xs k) (set-new f c xs k (g no_slot) new))
    where
      inside : ltb (length xs) (length (laid_out f xs (suc k))) ≡ true
      inside = lt→ltb _ _ (omega (arith, length-laid_out f xs (suc k)))
