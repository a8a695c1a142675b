-- ===== src/Client/WriteBuf/Coalesce.antt =====
-- client/src/writebuf.rs, `begin_flush`: sorting and coalescing the chunks against writing them in
-- the order in which the application wrote them.
use quicfs.Base.{
  ℕ, ◌+◌, ◌%◌, ◌≤◌, ◌<◌, ◌≡◌, refl, ap, ◌∙◌, ◌⊎◌, inl, inr, true, false, List, [], ◌∷◌, foldl,
  arith, leb, ◌==◌, length, All, Bool-cases, length-append,
}
use quicfs.File.{File, write, write-append, write_comm}
use quicfs.Client.WriteBuf.{
  PendingWrite, Run, runs, word_mod, insert_run, sort_runs, append_run, coalesce, batch_of,
}

-- Positioned writes, in order: what the server does with the runs of a batch.
unfoldable pub replay : List Run → File → File
replay [] f = f
replay (p ∷ ps) f = replay ps (write p.0 p.1 f)

-- The end of the run is an offset of 64 bits.
abbrev pub Fits : Run → Type 0
Fits p = p.0 + length p.1 < word_mod

-- `p` was written before `q`, and sorting by offset does not matter to them: `q` does not lie in
-- front of `p`, or it ends before `p` begins.
abbrev pub InOrder : Run → Run → Type 0
InOrder p q = (p.0 ≤ q.0) ⊎ (q.0 + length q.1 ≤ p.0)

abbrev pub Replayable : List Run → Type 0
Replayable [] = Unit
Replayable (p ∷ ps) = All (InOrder p) ps × Replayable ps

append_run-Fits : (ms : List Run) (p : Run) → All Fits ms → Fits p → All Fits (append_run ms p)
unfolding append_run
append_run-Fits [] p hs h = (h, tt)
append_run-Fits (q ∷ []) p hs h = ground (arith, length-append q.1 p.1)
append_run-Fits (q ∷ r ∷ rs) p hs h = (hs.0, append_run-Fits (r ∷ rs) p hs.1 h)

touching :
    (q p : Run) → Fits q → ((q.0 + length q.1) % word_mod == p.0) ≡ true → q.0 + length q.1 ≡ p.0
touching q p h e = ground arith

replay-append_run :
    (ms : List Run) (p : Run) (f : File)
    → All Fits ms
    → replay (append_run ms p) f ≡ write p.0 p.1 (replay ms f)
unfolding append_run replay
replay-append_run [] p f hs = refl
replay-append_run (q ∷ []) p f hs = elim (Bool-cases ((q.0 + length q.1) % word_mod == p.0)) [
  | inl e ↦ rw e (
      write-append q.0 q.1 p.1 f
      ∙ ap (λ (o : ℕ). write o p.1 (write q.0 q.1 f)) (touching q p hs.0 e))
  | inr e ↦ rw e refl
]
replay-append_run (q ∷ r ∷ rs) p f hs = replay-append_run (r ∷ rs) p (write q.0 q.1 f) hs.1

replay-foldl :
    (ms ps : List Run) (f : File)
    → All Fits ms
    → All Fits ps
    → replay (foldl append_run ms ps) f ≡ replay ps (replay ms f)
unfolding replay
replay-foldl ms [] f hm hp = refl
replay-foldl ms (p ∷ ps) f hm hp =
    replay-foldl (append_run ms p) ps f (append_run-Fits ms p hm hp.0) hp.1
    ∙ ap (replay ps) (replay-append_run ms p f hm)

-- Coalescing touching runs never changes what the writes leave in the file.
pub replay-coalesce :
    (ps : List Run) (f : File) → All Fits ps → replay (coalesce ps) f ≡ replay ps f
unfolding coalesce
replay-coalesce ps f h = replay-foldl [] ps f tt h ∙ unfold replay in refl

module _ {ℓ} (P : Run → Type ℓ) where
  All-insert_run : (p : Run) (qs : List Run) → P p → All P qs → All P (insert_run p qs)
  unfolding insert_run
  All-insert_run p [] h hs = (h, tt)
  All-insert_run p (q ∷ qs) h hs = elim (Bool-cases (leb p.0 q.0)) [
    | inl e ↦ rw e (h, hs)
    | inr e ↦ rw e (hs.0, All-insert_run p qs h hs.1)
  ]

  All-sort_runs : (ps : List Run) → All P ps → All P (sort_runs ps)
  unfolding sort_runs
  All-sort_runs [] h = tt
  All-sort_runs (p ∷ ps) h = All-insert_run p (sort_runs ps) h.0 (All-sort_runs ps h.1)

apart :
    (p q : Run)
    → InOrder p q
    → leb p.0 q.0 ≡ false
    → (p.0 + length p.1 ≤ q.0) ⊎ (q.0 + length q.1 ≤ p.0)
apart p q h e = ground arith

replay-insert_run :
    (p : Run) (qs : List Run) (f : File)
    → All (InOrder p) qs
    → replay (insert_run p qs) f ≡ replay qs (write p.0 p.1 f)
unfolding insert_run replay
replay-insert_run p [] f h = refl
replay-insert_run p (q ∷ qs) f h = elim (Bool-cases (leb p.0 q.0)) [
  | inl e ↦ rw e refl
  | inr e ↦ rw e (
      replay-insert_run p qs (write q.0 q.1 f) h.1
      ∙ ap (replay qs) (write_comm p.0 p.1 q.0 q.1 f (apart p q h.0 e)))
]

-- Sorting by offset does not change what the writes leave, where every pair that it swaps is apart.
pub replay-sort_runs :
    (ps : List Run) (f : File) → Replayable ps → replay (sort_runs ps) f ≡ replay ps f
unfolding sort_runs replay
replay-sort_runs [] f h = refl
replay-sort_runs (p ∷ ps) f h =
    replay-insert_run p (sort_runs ps) f (All-sort_runs (InOrder p) ps h.0)
    ∙ replay-sort_runs ps (write p.0 p.1 f) h.1

module _ (ws : List PendingWrite) (f : File) (fits : All Fits (runs ws)) where
  pub replay-batch_of : Replayable (runs ws) → replay (batch_of ws).chunks f ≡ replay (runs ws) f
  unfolding batch_of
  replay-batch_of h =
      replay-coalesce (sort_runs (runs ws)) f (All-sort_runs Fits (runs ws) fits)
      ∙ replay-sort_runs (runs ws) f h
