-- ===== src/Dict.antt =====
-- Go's maps. A map is read through `get` and written through `put` and `remove`; clients have the
-- laws. A `range` loop that copies a map runs over the entries, in an order Go leaves open.
use project_distributed_key.Base.{
  ◌≡◌, refl, Option, none, some, List, [], ◌∷◌, arith, if◌then◌else◌,
}
use project_distributed_key.Base.Keys.{Key, ◌==◌}

pub record Dict {ℓ κ} (K : Type ℓ) (V : Type κ) : Type (ℓ ⊔ κ) where
  pub entries : List (K × V)

module _ {ℓ κ} {K : Type ℓ} {V : Type κ} ⦃key : Key K⦄ where
  find : List (K × V) → K → Option V
  find [] k = none
  find ((j, v) ∷ rest) k = if j == k then some v else find rest k

  erase : List (K × V) → K → List (K × V)
  erase [] k = []
  erase ((j, v) ∷ rest) k = let others = erase rest k in if j == k then others else (j, v) ∷ others

  find-erase :
      (m : List (K × V)) (k i : K) → find (erase m k) i ≡ (if k == i then none else find m i)
  unfolding find erase
  find-erase [] k i = ground arith
  find-erase ((j, v) ∷ rest) k i =
      let ih = find-erase rest k i in
      ground (arith, ih, key.same_iff k i, key.same_iff j k, key.same_iff j i)

  -- v, ok := m[k]
  unfoldable pub get : Dict K V → K → Option V
  unfolding find
  get m k = find m.entries k

  -- delete(m, k)
  unfoldable pub remove : Dict K V → K → Dict K V
  unfolding erase
  remove m k = record { entries = erase m.entries k }

  -- m[k] = v
  unfoldable pub put : Dict K V → K → V → Dict K V
  unfolding erase
  put m k v = record { entries = (k, v) ∷ erase m.entries k }

  pub get-remove :
      (m : Dict K V) (k i : K) → get (remove m k) i ≡ (if k == i then none else get m i)
  unfolding get remove
  get-remove m = find-erase m.entries

  pub get-put :
      (m : Dict K V) (k i : K) (v : V) → get (put m k v) i ≡ (if k == i then some v else get m i)
  unfolding get put
  get-put m k i v = ground (arith, find-erase m.entries k i)

-- make(map[K]V)
unfoldable pub make {ℓ κ} : {K : Type ℓ} {V : Type κ} → Dict K V
make = record { entries = [] }

module _ {ℓ κ} {K : Type ℓ} {V : Type κ} ⦃key : Key K⦄ where
  pub get-make : (k : K) → get (make {V = V}) k ≡ none
  unfolding get make
  get-make k = refl

  copy_entries : List (K × V) → Dict K V
  unfolding make
  copy_entries [] = make
  copy_entries ((k, v) ∷ l) = put (copy_entries l) k v

  -- dst := make(map[K]V); for k, v := range src { dst[k] = v }
  unfoldable pub copy : Dict K V → Dict K V
  unfolding copy_entries put
  copy d = copy_entries d.entries

  get-copy_entries : (l : List (K × V)) (k : K) → get (copy_entries l) k ≡ find l k
  unfolding copy_entries find
  get-copy_entries [] k = get-make k
  get-copy_entries ((j, v) ∷ l) k =
      ground (arith, get-put (copy_entries l) j k v, get-copy_entries l k)

  -- A copy reads as its source does.
  pub get-copy : (d : Dict K V) (k : K) → get (copy d) k ≡ get d k
  unfolding get copy
  get-copy d k = unfold get in get-copy_entries d.entries k

pub ruleset dict_laws = (get-make, get-remove, get-put, get-copy)
