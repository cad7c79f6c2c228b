-- ===== src/Pmmr/Range/Push.antt =====
-- `PMMR::push` against a description of the range by its leaves: the node `i` of the level `h` has
-- the hash of its two children, and the file holds that hash at the position of the node.
use native.Mathlib.Nat.{eq_of_mul-eq-mul_left}
use epic.Base.{
  ℕ, zero, suc, ◌+◌, ◌-◌, ◌*◌, ◌/◌, ◌%◌, ◌^◌, ◌≤◌, ◌<◌, ◌≡◌, refl, sym, ap, ap₂, subst, ◌∙◌, arith,
  true, false, List, [], ◌∷◌, ◌++◌, some, length, get_elem?, length-append, get_elem?-append_left,
  get_elem?-append_right, dec_lt, ◌==◌, not, bit_and,
}
use epic.Base.Bits.{
  two_pow_suc, mul-two_pow_suc, two_pow_pos, bit_and-two_pow, odd_part, count_ones-le,
}
use epic.Pmmr.Index.{u64, has_peak, peak_map_height}
use epic.Pmmr.Index.Place.{node_pos, peak_map_height-node}
use epic.Pmmr.Index.Family.{node_pos-child, node_pos-parent, child_facts}
use epic.Pmmr.Index.Peaks.{mmr_size, le-mmr_size}
use epic.Pmmr.Index.Size.{node_pos-mmr_size, mmr_size-node_pos, node_pos-le-mmr_size}
use epic.Pmmr.Backend.{ok, Hashing, Backend, Appends}
use epic.Pmmr.Range.{Pmmr, push_loop, push}

module _ (H : Hashing) (leaf : ℕ → H.Element) where
  -- The hash of a node, from the leaves under it.
  unfoldable pub node_hash : ℕ → ℕ → H.Hash
  node_hash zero i = H.hash_element (leaf i) (node_pos 0 i - 1)
  node_hash (suc h) i =
      H.hash_pair (node_hash h (2 * i + 0)) (node_hash h (2 * i + 1)) (node_pos (suc h) i - 1)

-- The range over the first `m` leaves: its size, and every node's hash in the file.
pub record IsRange {H : Hashing} {B : Backend H} (A : Appends B) (leaf : ℕ → H.Element) (m : ℕ)
    (r : Pmmr B) : Type 0 where
  pub sized : r.last_pos ≡ mmr_size m
  pub stored : A.stored r.backend ≡ mmr_size m
  pub nodes :
      (h i : ℕ)
      → (i + 1) * 2 ^ h ≤ m
      → B.get_from_file r.backend (node_pos h i) ≡ some (node_hash H leaf h i)

-- The bit of the height `h` in the number `m` of the last leaf, if a node of that height ends there.
peak_of_child :
    (h j d m : ℕ) → d < 2 → (2 * j + d + 1) * 2 ^ h ≡ m + 1 → has_peak m (2 ^ h) ≡ (d == 1)
peak_of_child h j d m digit e =
    ap (λ (t : ℕ). not (bit_and t (2 ^ h) == 0)) place
    ∙ ap (λ (t : ℕ). not (t == 0))
        (bit_and-two_pow h (2 * j + d) (2 ^ h - 1) (omega (arith, some_leaf)))
    ∙ bit
  where
    some_leaf : 0 < 2 ^ h
    some_leaf = two_pow_pos h

    place : m ≡ (2 * j + d) * 2 ^ h + (2 ^ h - 1)
    place = omega (arith, e, some_leaf)

    digit_left : (2 * j + d) % 2 ≡ d
    digit_left = omega arith

    bit_test : (c : ℕ) → c < 2 → not (c * 2 ^ h == 0) ≡ (c == 1)
    bit_test zero small = ground arith
    bit_test (suc zero) small = ground (arith, some_leaf)
    bit_test (suc (suc c)) small = absurd (omega arith)

    bit : not ((2 * j + d) % 2 * 2 ^ h == 0) ≡ (d == 1)
    bit = rw digit_left (bit_test d digit)

same_index : (g k i : ℕ) → (k + 1) * 2 ^ g ≡ (i + 1) * 2 ^ g → k ≡ i
same_index g k i e =
    let next = eq_of_mul-eq-mul_left (2 ^ g) (two_pow_pos g) (k + 1) (i + 1) (omega (arith, e)) in
    omega (arith, next)

-- The nodes that end at the leaf `m`, up to the height `h`.
record Built (H : Hashing) (leaf : ℕ → H.Element) (m h i : ℕ) (hashes : List H.Hash) : Type 0 where
  ends : (i + 1) * 2 ^ h ≡ m + 1
  whole : length hashes ≡ h + 1
  each :
      (g k : ℕ) → g ≤ h → (k + 1) * 2 ^ g ≡ m + 1 → get_elem? hashes g ≡ some (node_hash H leaf g k)

module _ {H : Hashing} (leaf : ℕ → H.Element) (m : ℕ) where
  Built-leaf : Built H leaf m 0 m (node_hash H leaf 0 m ∷ [])
  Built-leaf = record { ends = omega arith; whole = refl; each = each }
    where
      each :
          (g k : ℕ)
          → g ≤ 0
          → (k + 1) * 2 ^ g ≡ m + 1
          → get_elem? (node_hash H leaf 0 m ∷ []) g ≡ some (node_hash H leaf g k)
      each zero k le e = ap (λ (t : ℕ). some (node_hash H leaf 0 t)) (omega arith)
      each (suc g) k le e = absurd (omega arith)

  Built-parent :
      (h j : ℕ) (hashes : List H.Hash)
      → Built H leaf m h (2 * j + 1) hashes
      → Built H leaf m (suc h) j (hashes ++ node_hash H leaf (suc h) j ∷ [])
  Built-parent h j hashes b = record {
    ends = top;
    whole = omega (arith, length-append hashes (node_hash H leaf (suc h) j ∷ []), b.whole);
    each = λ g k le e. elim (dec_lt h g) [
      | no low ↦
          get_elem?-append_left hashes _ g (omega (arith, b.whole)) ∙ b.each g k (omega arith) e
      | yes high ↦
          let last : g ≡ suc h = omega arith in
          let here : k ≡ j =
            same_index (suc h) k j (sym (ap (λ (t : ℕ). (k + 1) * 2 ^ t) last) ∙ e ∙ sym top) in
          get_elem?-append_right hashes (node_hash H leaf (suc h) j ∷ []) g 0
            (omega (arith, b.whole))
          ∙ ap₂ (λ (t u : ℕ). some (node_hash H leaf t u)) (sym last) (sym here)
    ];
  }
    where
      top : (j + 1) * 2 ^ suc h ≡ m + 1
      top = omega (arith, mul-two_pow_suc (j + 1) h, b.ends)

module _ {H : Hashing} (B : Backend H) (f : ℕ) (s : B.Store) (peak_map peak pos : ℕ)
    (current : H.Hash) (hashes : List H.Hash) where
  push_loop-stop :
      has_peak peak_map peak ≡ false
      → push_loop B (suc f) s peak_map peak pos current hashes ≡ ok (pos, hashes)
  unfolding push_loop
  push_loop-stop e = ground arith

  push_loop-climb :
      (left : H.Hash)
      → has_peak peak_map peak ≡ true
      → B.get_from_file s (u64 (pos + 1) - u64 (2 * peak)) ≡ some left
      → push_loop B (suc f) s peak_map peak pos current hashes
        ≡ push_loop B f s peak_map
            (u64 (peak * 2))
            (u64 (pos + 1))
            (H.hash_pair left current pos)
            (hashes ++ H.hash_pair left current pos ∷ [])
  unfolding push_loop
  push_loop-climb left e found = ground arith

-- A right child that ends the range, its sibling and its parent.
parent_places :
    (h j m : ℕ)
    → m < 2 ^ 60
    → (2 * j + 1 + 1) * 2 ^ h ≡ m + 1
    → (u64 (node_pos h (2 * j + 1) + 1) ≡ node_pos (suc h) j)
      × (u64 (node_pos h (2 * j + 1) + 1) - u64 (2 * 2 ^ h) ≡ node_pos h (2 * j + 0))
      × (u64 (2 ^ h * 2) ≡ 2 ^ suc h)
      × (node_pos h (2 * j + 1) ≡ node_pos (suc h) j - 1)
      × ((2 * j + 0 + 1) * 2 ^ h ≤ m)
parent_places h j m small e = omega (
  arith,
  child_facts h j 0 (omega arith) room,
  child_facts h j 1 (omega arith) room,
  node_pos-child h j 0 (omega arith) room,
  node_pos-child h j 1 (omega arith) room,
  node_pos-parent h j 0 (omega arith) room,
  count_ones-le j,
)
  where
    room : (j + 1) * 2 ^ suc h ≤ 2 ^ 62
    room = omega (arith, mul-two_pow_suc (j + 1) h, e)

module _ {H : Hashing} (B : Backend H) (leaf : ℕ → H.Element) (m : ℕ) (small : m < 2 ^ 60)
    (s : B.Store)
    (nodes : (g k : ℕ)
      → (k + 1) * 2 ^ g ≤ m
      → B.get_from_file s (node_pos g k) ≡ some (node_hash H leaf g k)) where
  -- The loop from a node that ends at the leaf `m` goes on to the last of these, a left child.
  abbrev Climbs : ℕ → ℕ → ℕ → List H.Hash → Type 0
  Climbs f h i hashes =
      (h' : ℕ) × (j : ℕ) × (hashes' : List H.Hash) × (push_loop B f s m (2 ^ h) (node_pos h i)
          (node_hash H leaf h i) hashes
        ≡ ok (node_pos h' (2 * j + 0), hashes'))
      × Built H leaf m h' (2 * j + 0) hashes'

  climb_left :
      (f h j : ℕ) (hashes : List H.Hash)
      → Built H leaf m h (2 * j + 0) hashes
      → Climbs (suc f) h (2 * j + 0) hashes
  climb_left f h j hashes b = (
    h,
    j,
    hashes,
    push_loop-stop B f s m (2 ^ h) (node_pos h (2 * j + 0)) _ hashes
        (peak_of_child h j 0 m (omega arith) b.ends),
    b,
  )

  push_loop-right :
      (f h j : ℕ) (hashes : List H.Hash)
      → (2 * j + 1 + 1) * 2 ^ h ≡ m + 1
      → push_loop B
          (suc f)
          s
          m
          (2 ^ h)
          (node_pos h (2 * j + 1))
          (node_hash H leaf h (2 * j + 1))
          hashes
        ≡ push_loop B f s m
            (2 ^ suc h)
            (node_pos (suc h) j)
            (node_hash H leaf (suc h) j)
            (hashes ++ node_hash H leaf (suc h) j ∷ [])
  unfolding node_hash
  push_loop-right f h j hashes e =
      let places = parent_places h j m small e in
      push_loop-climb B f s m (2 ^ h) (node_pos h (2 * j + 1)) _ hashes
        (node_hash H leaf h (2 * j + 0)) (peak_of_child h j 1 m (omega arith) e)
        (ap (B.get_from_file s) places.1 ∙ nodes h (2 * j + 0) places.4)
      ∙ rw (places.2, places.0, places.3) refl

  climb_right :
      (f h j : ℕ) (hashes : List H.Hash)
      → Built H leaf m h (2 * j + 1) hashes
      → Climbs f (suc h) j (hashes ++ node_hash H leaf (suc h) j ∷ [])
      → Climbs (suc f) h (2 * j + 1) hashes
  climb_right f h j hashes b (h', j', hashes', e, b') =
      (h', j', hashes', push_loop-right f h j hashes b.ends ∙ e, b')

  climb :
      (f h i : ℕ) (hashes : List H.Hash)
      → i < 2 ^ f
      → Built H leaf m h i hashes
      → Climbs f h i hashes
  unfolding push_loop
  climb zero h i hashes fuel b =
      let first : 2 * 0 + 0 ≡ i = omega arith in
      (
        h,
        0,
        hashes,
        ap (λ (t : ℕ). ok (node_pos h t, hashes)) (sym first),
        subst (λ (t : ℕ). Built H leaf m h t hashes) (sym first) b,
      )
  climb (suc f) h i hashes fuel b = elim (dec_lt (i % 2) 1) [
    | yes even ↦
        let child : 2 * (i / 2) + 0 ≡ i = omega arith in
        subst (λ (t : ℕ). Climbs (suc f) h t hashes) child
          (climb_left f h (i / 2) hashes
            (subst (λ (t : ℕ). Built H leaf m h t hashes) (sym child) b))
    | no odd ↦
        let child : 2 * (i / 2) + 1 ≡ i = omega arith in
        let b' = subst (λ (t : ℕ). Built H leaf m h t hashes) (sym child) b in
        subst (λ (t : ℕ). Climbs (suc f) h t hashes) child
          (climb_right f h (i / 2) hashes b' (
            climb f (suc h) (i / 2) _ (omega (arith, two_pow_suc f))
              (Built-parent leaf m h (i / 2) hashes b')))
  ]

module _ {H : Hashing} {B : Backend H} (A : Appends B) (leaf : ℕ → H.Element) (m : ℕ)
    (small : m < 2 ^ 60) (r : Pmmr B) (range : IsRange A leaf m r) where
  -- Appending the nodes that end at the leaf `m` gives the range with that leaf.
  IsRange-append :
      (h j : ℕ) (hashes : List H.Hash)
      → Built H leaf m h (2 * j + 0) hashes
      → IsRange A leaf (m + 1) (record {
        last_pos = node_pos h (2 * j + 0);
        backend = A.appended r.backend (leaf m) hashes;
      })
  IsRange-append h j hashes b = record {
    sized = sym size;
    stored =
        A.stored_append r.backend (leaf m) hashes
        ∙ omega (arith, range.stored, b.whole, size, place);
    nodes = λ g k le. elim (dec_lt m ((k + 1) * 2 ^ g)) [
      | no old ↦
          A.append_old r.backend (leaf m) hashes (node_pos g k)
            (omega (arith, range.stored, node_pos-le-mmr_size g k m (omega arith) (omega arith)))
          ∙ range.nodes g k (omega arith)
      | yes new ↦
          let ends : (k + 1) * 2 ^ g ≡ m + 1 = omega arith in
          let low = odd_part h g j (k + 1) (b.ends ∙ sym ends) in
          ap (B.get_from_file (A.appended r.backend (leaf m) hashes))
            (omega (arith, node_pos-mmr_size g k m ends (omega arith), range.stored))
          ∙ A.append_new r.backend (leaf m) hashes g
          ∙ b.each g k low ends
    ];
  }
    where
      size : mmr_size (m + 1) ≡ node_pos h (2 * j + 0)
      size = mmr_size-node_pos h j m b.ends (omega arith)

      place : node_pos h (2 * j + 0) ≡ mmr_size m + h + 1
      place = node_pos-mmr_size h (2 * j + 0) m b.ends (omega arith)

  push_lem :
      (h j : ℕ) (hashes : List H.Hash)
      → push_loop B 65 r.backend m 1
          (node_pos 0 m)
          (node_hash H leaf 0 m)
          (node_hash H leaf 0 m ∷ [])
        ≡ ok (node_pos h (2 * j + 0), hashes)
      → push r (leaf m)
        ≡ ok (
          node_pos 0 m,
          record {
            last_pos = node_pos h (2 * j + 0);
            backend = A.appended r.backend (leaf m) hashes;
          },
        )
  unfolding push node_hash
  push_lem h j hashes built =
      rw (next_pos, at_leaf, built, A.append_ok r.backend (leaf m) hashes) refl
    where
      next_pos : u64 (r.last_pos + 1) ≡ node_pos 0 m
      next_pos =
          omega
            (arith, range.sized, node_pos-mmr_size 0 m m (omega arith) (omega arith), le-mmr_size m)

      at_leaf : peak_map_height (node_pos 0 m - 1) ≡ (m, 0)
      at_leaf = ground (arith, peak_map_height-node 0 m)

  -- Over a backend whose `append` appends, pushing the leaf `m`, below 2 ^ 60, onto the range over
  -- the first `m` leaves succeeds, gives the position of the new leaf, and the range over the first
  -- `m + 1` leaves: its size, and in the file the hash of every full subtree, made of the hashes of
  -- its two children, at the subtree's position.
  pub push-IsRange :
      (r' : Pmmr B) × (push r (leaf m) ≡ ok (node_pos 0 m, r')) × IsRange A leaf (m + 1) r'
  push-IsRange =
      let (h, j, hashes, built, b) =
        climb B leaf m small r.backend range.nodes 65 0 m (node_hash H leaf 0 m ∷ []) (omega arith)
          (Built-leaf leaf m) in
      (_, push_lem h j hashes built, IsRange-append h j hashes b)
