-- ===== src/Client/Mount/Background.antt =====
-- client/src/mount.rs: the background task of a mount, and the flush on a clean unmount. What runs
-- between two ticks is left out, and so are the kernel's calls and the reading of /proc/mounts.
pub mod Told
use quicfs.Base.{ℕ, ◌*◌, Bool, true, false, List, [], ◌∷◌, ltb, if◌then◌else◌}
use quicfs.Client.WriteBuf.{drop_handle, older_than, expired_handles, handles}
use quicfs.Client.Mount.{Conn, Mount, with_error, flush_one}

-- `MAX_UNACKED_AGE`, in milliseconds as the window of the buffer.
abbrev pub max_unacked_age : ℕ
max_unacked_age = 120 * 1000

module _ {conn : Conn} where
  -- One round of the loop over `too_old`.
  unfoldable pub age_drop : ℕ → Mount conn → Mount conn
  unfolding drop_handle
  age_drop fh m = record m {
    write_buf = (drop_handle fh m.write_buf).0;
    write_errors =
        if ltb 0 (drop_handle fh m.write_buf).1
        then with_error fh true m.write_errors
        else m.write_errors;
  }

  unfoldable pub age_drops : List ℕ → Mount conn → Mount conn
  unfolding age_drop
  age_drops [] m = m
  age_drops (fh ∷ fhs) m = age_drops fhs (age_drop fh m)

  -- The loops over `expired` and over the handles at the unmount: an error is left aside.
  unfoldable pub flush_all : Bool → List ℕ → Mount conn → Mount conn
  unfolding flush_one
  flush_all allow_reopen [] m = m
  flush_all allow_reopen (fh ∷ fhs) m = flush_all allow_reopen fhs (flush_one allow_reopen fh m).0

  unfoldable pub expire : ℕ → Mount conn → Mount conn
  unfolding age_drops older_than
  expire now m = age_drops (older_than now max_unacked_age m.write_buf) m

  -- One tick, with the clock when it begins and when the windows are looked at.
  unfoldable pub tick : ℕ → ℕ → Mount conn → Mount conn
  unfolding expire flush_all expired_handles
  tick now later m =
      let m' : Mount conn = expire now m in flush_all false (expired_handles later m'.write_buf) m'

  unfoldable pub ticks : List (ℕ × ℕ) → Mount conn → Mount conn
  unfolding tick
  ticks [] m = m
  ticks ((now, later) ∷ times) m = ticks times (tick now later m)

  -- `Shutdown::Signal`
  unfoldable pub unmount : Mount conn → Mount conn
  unfolding flush_all handles
  unmount m = flush_all true (handles m.write_buf) m
