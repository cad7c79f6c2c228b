-- ===== src/Consensus/Retarget/Window.antt =====
-- The window of headers that a retarget reads.
use mathlib.Core.List.{reverse_aux}
use epic.Base.{
  ℕ, zero, suc, ◌+◌, ◌-◌, ◌≤◌, ◌≡◌, refl, ap, ◌∙◌, arith, List, [], ◌∷◌, ◌++◌, reverse, Option,
  none, some, length, length-append, take, get_elem?,
}
use epic.Consensus.Emission.{ChainTypes}
use epic.Consensus.Retarget.{
  HeaderInfo, Difficulty, from_ts_diff, relink, simulate, last_of, last_delta, fill_window,
  ts_data_to_vector, difficulty_data_to_vector,
}

-- No header is newer than the bound, nor than the one before it.
Falling : ℕ → List HeaderInfo → Type 0
Falling newest [] = Unit
Falling newest (x ∷ xs) = (x.timestamp ≤ newest) × Falling x.timestamp xs

-- No header is older than the bound, nor than the one before it.
unfoldable pub Rising : ℕ → List HeaderInfo → Type 0
Rising oldest [] = Unit
Rising oldest (x ∷ xs) = (oldest ≤ x.timestamp) × Rising x.timestamp xs

Rising-earlier : (n m : ℕ) (xs : List HeaderInfo) → n ≤ m → Rising m xs → Rising n xs
unfolding Rising
Rising-earlier n m [] le rising = rising
Rising-earlier n m (x ∷ xs) le (first, rest) = (omega arith, rest)

Rising-reverse_aux :
    (m : ℕ) (xs acc : List HeaderInfo) → Falling m xs → Rising m acc → Rising 0 (reverse_aux xs acc)
unfolding Falling Rising
Rising-reverse_aux m [] acc falling rising = Rising-earlier 0 m acc (omega arith) rising
Rising-reverse_aux m (x ∷ xs) acc (first, rest) rising =
    Rising-reverse_aux x.timestamp xs (x ∷ acc) rest
      (omega arith, Rising-earlier x.timestamp m acc first rising)

length-relink : (xs : List HeaderInfo) (x : HeaderInfo) → length (relink x xs) ≡ length xs
unfolding relink
length-relink [] x = refl
length-relink (y ∷ ys) x = ap suc (length-relink ys _)

length-simulate :
    (chain : ChainTypes) (n ts delta : ℕ) (diff : Difficulty)
    → length (simulate chain n ts delta diff) ≡ n
unfolding simulate
length-simulate chain zero ts delta diff = refl
length-simulate chain (suc n) ts delta diff = ap suc (length-simulate chain n _ delta diff)

simulate-Falling :
    (chain : ChainTypes) (n ts delta : ℕ) (diff : Difficulty)
    → Falling ts (simulate chain n ts delta diff)
unfolding Falling simulate from_ts_diff
simulate-Falling chain zero ts delta diff = tt
simulate-Falling chain (suc n) ts delta diff =
    (omega arith, simulate-Falling chain n (ts - delta) delta diff)

-- The relinked headers, and after them any that are no newer than the last.
relink-Falling :
    (xs : List HeaderInfo) (x : HeaderInfo) (tail : List HeaderInfo)
    → Falling (last_of x (relink x xs)).timestamp tail
    → Falling x.timestamp (relink x xs ++ tail)
unfolding Falling relink last_of
relink-Falling [] x tail falling = falling
relink-Falling (y ∷ ys) x tail falling = (omega arith, relink-Falling ys _ tail falling)

length-take_le : (n : ℕ) (xs : List HeaderInfo) → length (take n xs) ≤ n
length-take_le zero xs = omega arith
length-take_le (suc n) [] = omega arith
length-take_le (suc n) (x ∷ xs) = omega (arith, length-take_le n xs)

fill :
    (chain : ChainTypes) (needed : ℕ) (x : HeaderInfo) (xs : List HeaderInfo)
    → length (x ∷ xs) ≤ needed
    → (older : List HeaderInfo) × (fill_window chain needed (x ∷ xs) ≡ some (x ∷ older))
      × (length older + 1 ≡ needed)
      × Falling x.timestamp older
unfolding fill_window
fill chain needed x xs room =
    (_, refl, size, relink-Falling xs x _ (simulate-Falling chain _ _ _ _))
  where
    last : HeaderInfo
    last = last_of x (relink x xs)

    missing : ℕ
    missing = needed - length (x ∷ relink x xs)

    simulated : List HeaderInfo
    simulated = simulate chain missing last.timestamp (last_delta x (relink x xs)) x.difficulty

    size : length (relink x xs ++ simulated) + 1 ≡ needed
    size = omega (
      arith,
      room,
      length-relink xs x,
      length-append (relink x xs) simulated,
      length-simulate chain missing last.timestamp (last_delta x (relink x xs)) x.difficulty,
    )

length-reverse_aux :
    (xs acc : List HeaderInfo) → length (reverse_aux xs acc) ≡ length xs + length acc
length-reverse_aux [] acc = omega arith
length-reverse_aux (x ∷ xs) acc = omega (arith, length-reverse_aux xs (x ∷ acc))

get_elem?-reverse_aux :
    (xs acc : List HeaderInfo) (i : ℕ)
    → get_elem? (reverse_aux xs acc) (length xs + i) ≡ get_elem? acc i
get_elem?-reverse_aux [] acc i = ap (get_elem? acc) (omega arith)
get_elem?-reverse_aux (x ∷ xs) acc i =
    let next : suc (length xs) + i ≡ length xs + suc i = omega arith in
    rw next (get_elem?-reverse_aux xs (x ∷ acc) (suc i))

abbrev newest_last : Option (List HeaderInfo) → Option (List HeaderInfo)
newest_last o = elim o [ none ↦ none | some last_n ↦ some (reverse last_n) ]

vector_lem :
    (chain : ChainTypes) (x : HeaderInfo) (xs older : List HeaderInfo) (n : ℕ)
    → fill_window chain (n + 1) (x ∷ take n xs) ≡ some (x ∷ older)
    → difficulty_data_to_vector chain (x ∷ xs) n ≡ some (reverse_aux older (x ∷ []))
unfolding difficulty_data_to_vector ts_data_to_vector
vector_lem chain x xs older n filled =
    let next : n + 1 ≡ suc n = omega arith in
    let taken : take (n + 1) (x ∷ xs) ≡ x ∷ take n xs = ap (λ (t : ℕ). take t (x ∷ xs)) next in
    ap (λ (ys : List HeaderInfo). newest_last (fill_window chain (n + 1) ys)) taken
    ∙ ap newest_last filled

-- With at least one header, `difficulty_data_to_vector` succeeds, and gives one header more than is
-- asked for, the newest last and with times that never fall.
pub difficulty_data_to_vector-Rising :
    (chain : ChainTypes) (x : HeaderInfo) (xs : List HeaderInfo) (needed_block_count : ℕ)
    → (v : List HeaderInfo) × (difficulty_data_to_vector chain (x ∷ xs) needed_block_count ≡ some v)
      × (length v ≡ needed_block_count + 1)
      × (get_elem? v needed_block_count ≡ some x)
      × Rising 0 v
unfolding Falling Rising
difficulty_data_to_vector-Rising chain x xs n =
    let (older, filled, size, falling) =
      fill chain (n + 1) x (take n xs) (omega (arith, length-take_le n xs)) in
    let start : n ≡ length older + 0 = omega arith in
    (
      reverse_aux older (x ∷ []),
      vector_lem chain x xs older n filled,
      omega (arith, length-reverse_aux older (x ∷ [])),
      ap (get_elem? (reverse_aux older (x ∷ []))) start ∙ get_elem?-reverse_aux older (x ∷ []) 0,
      Rising-reverse_aux x.timestamp older (x ∷ []) falling (omega arith, tt),
    )

-- The header at any place of a window is no older than the bound.
pub Rising-get_elem? :
    (v : List HeaderInfo) (n i : ℕ) (a : HeaderInfo)
    → Rising n v
    → get_elem? v i ≡ some a
    → n ≤ a.timestamp
unfolding Rising
Rising-get_elem? [] n i a rising at_i = absurd (cc)
Rising-get_elem? (x ∷ xs) n zero a (first, rest) at_i =
    omega (
      arith,
      ap {B = ℕ} (λ (o : Option HeaderInfo). elim o [ none ↦ 0 | some h ↦ h.timestamp ]) at_i,
    )
Rising-get_elem? (x ∷ xs) n (suc i) a (first, rest) at_i =
    omega (arith, Rising-get_elem? xs x.timestamp i a rest at_i)
