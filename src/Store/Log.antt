-- ===== src/Store/Log.antt =====
-- What an append-only file of store/src/types.rs promises: elements that are saved, of which a rewind
-- keeps the first, and elements that wait to be saved.
use epic.Base.{ℕ, ◌+◌, ◌*◌, ◌≤◌, ◌<◌, ◌^◌, ◌≡◌, List, [], ◌∷◌, ◌++◌, length, take}
use epic.Store.File.{AppendOnlyFile, append, rewind, flush, discard}

pub record Log : Type 0 where
  pub saved : List (List ℕ)
  pub kept : ℕ
  pub pending : List (List ℕ)

pub data Command : Type 0 where
  appending : List ℕ → Command
  rewinding : ℕ → Command
  flushing discarding : Command

unfoldable pub view : Log → List (List ℕ)
view l = take l.kept l.saved ++ l.pending

unfoldable pub saved_log : List (List ℕ) → Log
saved_log xs = record { saved = xs; kept = length xs; pending = [] }

unfoldable pub step : Command → Log → Log
step (appending x) l = record l { pending = l.pending ++ x ∷ [] }
step (rewinding n) l = record l { kept = n }
step flushing l = saved_log (view l)
step discarding l = saved_log l.saved

unfoldable pub steps : List Command → Log → Log
steps [] l = l
steps (c ∷ cs) l = steps cs (step c l)

module _ (elmt_size : ℕ) where
  -- What the callers keep to: elements of the size, of fewer than 2 ^ 64 bytes together, and a rewind
  -- to what is kept while nothing waits.
  unfoldable pub IsAllowed : Command → Log → Type 0
  IsAllowed (appending x) l =
      (length x ≡ elmt_size) × ((length l.saved + length l.pending + 2) * elmt_size < 2 ^ 64)
  IsAllowed (rewinding n) l = (n ≤ l.kept) × (l.pending ≡ [])
  IsAllowed flushing l = Unit {0}
  IsAllowed discarding l = Unit {0}

  unfoldable pub AreAllowed : List Command → Log → Type 0
  AreAllowed [] l = Unit {0}
  AreAllowed (c ∷ cs) l = IsAllowed c l × AreAllowed cs (step c l)

  unfoldable pub run : Command → AppendOnlyFile → AppendOnlyFile
  run (appending x) f = append x f
  run (rewinding n) f = rewind n f
  run flushing f = flush elmt_size f
  run discarding f = discard f

  unfoldable pub runs : List Command → AppendOnlyFile → AppendOnlyFile
  runs [] f = f
  runs (c ∷ cs) f = runs cs (run c f)
