-- ===== src/Tests/Wire.antt =====
-- common/src/io.rs, common/src/status.rs and client/src/fuse_ops.rs on concrete inputs.
use quicfs.Base.{ℕ, ◌≤◌, ◌≡◌, refl, none, some, false, List, [], ◌∷◌, ◌++◌, arith, length}
use quicfs.Common.Status.{not_empty, from_io, directory_not_empty}
use quicfs.Common.FrameIo.{
  ok, be32, max_frame_size, write_frame, read_frame, read_frame-write_frame, read_frame_sound,
}
use quicfs.Client.Errno.{told, told-meaning, told_failure, flush_reply, eio, enotempty}

abbrev body : List ℕ
body = 7 ∷ 8 ∷ []

abbrev framed : List ℕ
framed = 0 ∷ 0 ∷ 0 ∷ 2 ∷ 7 ∷ 8 ∷ []

writes : write_frame body ≡ ok framed
unfolding write_frame
writes = refl

read_frame-write_frame_example : read_frame (framed ++ 9 ∷ []) ≡ ok (body, 9 ∷ [])
read_frame-write_frame_example = read_frame-write_frame body (9 ∷ []) framed writes

reads : read_frame (framed ++ 9 ∷ []) ≡ ok (body, 9 ∷ [])
unfolding read_frame
reads = refl

read_frame_sound_example :
    (length body ≤ max_frame_size) × (framed ++ 9 ∷ [] ≡ (be32 (length body) ++ body) ++ 9 ∷ [])
read_frame_sound_example =
    read_frame_sound (framed ++ 9 ∷ []) body (9 ∷ [])
      (
        omega arith,
        (
          omega arith,
          (omega arith, (omega arith, (omega arith, (omega arith, (omega arith, tt))))),
        ),
      )
      reads

told-meaning_example : told not_empty ≡ some enotempty
told-meaning_example = told-meaning not_empty

told_failure_example : told (from_io directory_not_empty) ≡ some eio
told_failure_example = told_failure directory_not_empty

answers : flush_reply none false ≡ none
unfolding flush_reply
answers = refl
