-- ===== src/Client/Mount/Background/Told.antt =====
-- client/src/mount.rs: the background task and the unmount lose no chunk silently.
use quicfs.Base.{
  ℕ, ◌≡◌, refl, ◌∙◌, sym, ◌⊎◌, ◌||◌, inl, inr, Bool, true, false, List, [], ◌∷◌, ltb, ◌==◌, ==_refl,
  ==_iff, subst, Bool-cases, arith,
}
use quicfs.Client.WriteBuf.{drop_handle, older_than, expired_handles, handles}
use quicfs.Client.WriteBuf.Queue.{queue, queue-drop_handle}
use quicfs.Client.Mount.{Conn, Mount, flush_one}
use quicfs.Client.Mount.Account.{Settled, Account, then_Account, dropped_bytes, emptied}
use quicfs.Client.Mount.Apart.{flush_one-Kept}
use quicfs.Client.Mount.Background.{
  max_unacked_age, age_drop, age_drops, flush_all, expire, tick, ticks, unmount,
}
use quicfs.Client.Mount.Close.{flush_one-Account}

module _ (conn : Conn) (k : ℕ) where
  Kept-Account :
      (m m' : Mount conn)
      → (queue k m'.write_buf ≡ queue k m.write_buf) × (m'.write_errors k ≡ m.write_errors k)
      → Account conn k m m'
  Kept-Account m m' (q, e) = (inl q, λ h. e ∙ h)

  age_drop_own : (m : Mount conn) → Account conn k m (age_drop k m)
  unfolding age_drop
  age_drop_own m = elim (Bool-cases (ltb 0 (drop_handle k m.write_buf).1)) [
    | inl some_bytes ↦
        rw (some_bytes, age_drop)
          (inr (emptied k m.write_buf, inl (rw (==_refl k) refl)), λ h. rw (==_refl k) refl)
    | inr no_bytes ↦
        rw (no_bytes, age_drop)
          (
            inr (
              emptied k m.write_buf,
              inr (inr (ground (arith, no_bytes, dropped_bytes k m.write_buf))),
            ),
            λ h. h,
          )
  ]

  age_drop_other :
      (fh : ℕ) (m : Mount conn)
      → (fh == k) ≡ false
      → (queue k (age_drop fh m).write_buf ≡ queue k m.write_buf)
        × ((age_drop fh m).write_errors k ≡ m.write_errors k)
  unfolding age_drop
  age_drop_other fh m apart = elim (Bool-cases (ltb 0 (drop_handle fh m.write_buf).1)) [
    | inl some_bytes ↦
        rw (some_bytes, age_drop)
          (queue-drop_handle fh m.write_buf k ∙ rw apart refl, rw apart refl)
    | inr no_bytes ↦
        rw (no_bytes, age_drop) (queue-drop_handle fh m.write_buf k ∙ rw apart refl, refl)
  ]

  age_drop-Account : (fh : ℕ) (m : Mount conn) → Account conn k m (age_drop fh m)
  age_drop-Account fh m = elim (Bool-cases (fh == k)) [
    | inl same ↦
        subst (λ h. Account conn k m (age_drop h m)) (sym ((==_iff fh k).0 same)) (age_drop_own m)
    | inr apart ↦ Kept-Account m (age_drop fh m) (age_drop_other fh m apart)
  ]

  age_drops-Account : (fhs : List ℕ) (m : Mount conn) → Account conn k m (age_drops fhs m)
  unfolding age_drops
  age_drops-Account [] m = (inl refl, λ h. h)
  age_drops-Account (fh ∷ fhs) m =
      then_Account conn k m (age_drop fh m) (age_drops fhs (age_drop fh m)) (age_drop-Account fh m)
        (age_drops-Account fhs (age_drop fh m))

  flush_any-Account :
      (allow_reopen : Bool) (fh : ℕ) (m : Mount conn)
      → Account conn k m (flush_one allow_reopen fh m).0
  flush_any-Account allow_reopen fh m = elim (Bool-cases (fh == k)) [
    | inl same ↦
        subst (λ h. Account conn k m (flush_one allow_reopen h m).0) (sym ((==_iff fh k).0 same))
          (flush_one-Account conn k allow_reopen m)
    | inr apart ↦
        Kept-Account m (flush_one allow_reopen fh m).0
          (flush_one-Kept conn fh k apart allow_reopen m)
  ]

  flush_all-Account :
      (allow_reopen : Bool) (fhs : List ℕ) (m : Mount conn)
      → Account conn k m (flush_all allow_reopen fhs m)
  unfolding flush_all
  flush_all-Account allow_reopen [] m = (inl refl, λ h. h)
  flush_all-Account allow_reopen (fh ∷ fhs) m =
      let once : Mount conn = (flush_one allow_reopen fh m).0 in
      then_Account conn k m once (flush_all allow_reopen fhs once)
        (flush_any-Account allow_reopen fh m) (flush_all-Account allow_reopen fhs once)

  tick-Account : (now later : ℕ) (m : Mount conn) → Account conn k m (tick now later m)
  unfolding tick expire
  tick-Account now later m =
      let fhs : List ℕ = older_than now max_unacked_age m.write_buf in
      let m' : Mount conn = age_drops fhs m in
      then_Account conn k m m' (flush_all false (expired_handles later m'.write_buf) m')
        (age_drops-Account fhs m) (flush_all-Account false (expired_handles later m'.write_buf) m')

  ticks-Account : (times : List (ℕ × ℕ)) (m : Mount conn) → Account conn k m (ticks times m)
  unfolding ticks
  ticks-Account [] m = (inl refl, λ h. h)
  ticks-Account ((now, later) ∷ times) m =
      let once : Mount conn = tick now later m in
      then_Account conn k m once (ticks times once) (tick-Account now later m)
        (ticks-Account times once)

  Account-told :
      (m m' : Mount conn)
      → Account conn k m m'
      → ((queue k m'.write_buf ≡ queue k m.write_buf) ⊎ Settled conn k m m')
        × (m'.write_errors k ≡ (m.write_errors k || m'.write_errors k))
  Account-told m m' (why, keep) = elim (Bool-cases (m.write_errors k)) [
    | inl e ↦ (why, rw (e, keep e) refl)
    | inr e ↦ (why, rw e refl)
  ]

  -- However often the background task runs, at whatever times, and with the flush on a clean unmount
  -- after it: the chunks of every handle are all still queued, or none is and they were sent as one
  -- batch whose every write the server answered with success, or had no bytes in them, or a sticky
  -- error tells of them. A sticky error that was there stays.
  pub background_told :
      (times : List (ℕ × ℕ)) (m : Mount conn)
      → let m' : Mount conn = unmount (ticks times m) in
        ((queue k m'.write_buf ≡ queue k m.write_buf) ⊎ Settled conn k m m')
        × (m'.write_errors k ≡ (m.write_errors k || m'.write_errors k))
  unfolding unmount
  background_told times m =
      let m' : Mount conn = ticks times m in
      let fhs : List ℕ = handles m'.write_buf in
      Account-told m (flush_all true fhs m') (
        then_Account conn k m m' (flush_all true fhs m') (ticks-Account times m)
          (flush_all-Account true fhs m'))
