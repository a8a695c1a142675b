-- ===== src/EndToEnd/Writing.antt =====
-- client/src/conn.rs, `write`, against server/src/ops/data.rs, `handle_write`.
use quicfs.Base.{
  ℕ, zero, suc, ◌+◌, ◌-◌, ◌*◌, ◌%◌, min, ◌≤◌, ◌<◌, ◌≡◌, ◌≢◌, refl, ap, subst, ◌∙◌, Bool, true,
  false, Option, none, some, ◌⊎◌, inl, inr, Option-cases, List, [], ◌∷◌, ◌++◌, ◌==◌, if◌then◌else◌,
  length, take, drop, arith, take-append-drop, length-drop, length-take, append-nil,
}
use quicfs.File.{File, write, write-append, size-write}
use quicfs.Io.{Io, WriteLaws}
use quicfs.Common.Status.{ok, ErrorKind, from_io, from_io-ne-ok}
use quicfs.Client.WriteBuf.{word_mod}
use quicfs.Client.Send.{chunks_of, frames_from}
use quicfs.Server.Write.{WriteRequest, WriteResponse, write_at, add_total, write_frames}

concat : List (List ℕ) → List ℕ
concat [] = []
concat (c ∷ cs) = c ++ concat cs

concat-chunks_of :
    (fuel n : ℕ) (xs : List ℕ) → 0 < n → length xs ≤ fuel → concat (chunks_of fuel n xs) ≡ xs
unfolding concat chunks_of
concat-chunks_of zero n [] h g = refl
concat-chunks_of zero n (x ∷ xs) h g = absurd (omega arith)
concat-chunks_of (suc fuel) n [] h g = refl
concat-chunks_of (suc fuel) n (x ∷ xs) h g =
    ap (λ (l : List ℕ). take n (x ∷ xs) ++ l)
      (concat-chunks_of fuel n (drop n (x ∷ xs)) h (omega (arith, length-drop n (x ∷ xs))))
    ∙ take-append-drop n (x ∷ xs)

-- The RPC was answered, and either with an error, or with success over exactly the file in which the
-- payload stands at `pos` and with the number of bytes that were written by then.
abbrev pub Lands : File × Option WriteResponse → ℕ → List ℕ → File → ℕ → Type 0
Lands result pos payload f written =
    (r : WriteResponse) × (result.1 ≡ some r)
    × ((r.status ≢ ok)
        ⊎ ((r.status ≡ ok) × (result.0 ≡ write pos payload f) × (r.written ≡ written)))

abbrev pub position : Bool → ℕ → File → ℕ
position append offset f = if append then f.size else offset

module _ (io : Io) (laws : WriteLaws io) (append : Bool) (seq : ℕ) where
  -- A frame that fails ends the RPC with its error.
  frame_fails :
      (w : WriteRequest) (ws : List WriteRequest) (total : ℕ) (f : File) (k : ErrorKind)
      → (write_at io append w.offset w.payload f).1 ≡ some k
      → (r : WriteResponse) × ((write_frames io append seq (w ∷ ws) total f).1 ≡ some r)
        × (r.status ≢ ok)
  unfolding write_frames
  frame_fails w ws total f k e = (
    record { seq = seq; status = from_io k; written = total },
    ground (arith, e),
    from_io-ne-ok k,
  )

  last_frame :
      (w : WriteRequest) (ws : List WriteRequest) (total : ℕ) (f : File)
      → (write_at io append w.offset w.payload f).1 ≡ none
      → w.done ≡ true
      → write_frames io append seq (w ∷ ws) total f ≡ (
        write (position append w.offset f) w.payload f,
        some (record { seq = seq; status = ok; written = add_total total (length w.payload) }),
      )
  unfolding write_frames
  last_frame w ws total f e d =
      ground (arith, e, d, laws.in_place f (position append w.offset f) w.payload)

  next_frame :
      (w : WriteRequest) (ws : List WriteRequest) (total : ℕ) (f : File)
      → (write_at io append w.offset w.payload f).1 ≡ none
      → w.done ≡ false
      → write_frames io append seq (w ∷ ws) total f
        ≡ write_frames io append seq ws
            (add_total total (length w.payload))
            (write (position append w.offset f) w.payload f)
  unfolding write_frames
  next_frame w ws total f e d =
      ground (arith, e, d, laws.in_place f (position append w.offset f) w.payload)

add_total-sum : (total n : ℕ) → total + n < word_mod → add_total total n ≡ total + n
unfolding add_total
add_total-sum total n h = omega arith

module _ (io : Io) (laws : WriteLaws io) (append : Bool) (seq : ℕ) where
  land_last :
      (w : WriteRequest) (ws : List WriteRequest) (total : ℕ) (f : File)
      → w.done ≡ true
      → total + length w.payload < word_mod
      → Lands
          (write_frames io append seq (w ∷ ws) total f)
          (position append w.offset f)
          w.payload
          f
          (total + length w.payload)
  land_last w ws total f d small = elim (Option-cases (write_at io append w.offset w.payload f).1) [
    | inr (k, failure) ↦
        let (r, answered, wrong) = frame_fails io laws append seq w ws total f k failure in
        (r, answered, inl wrong)
    | inl fine ↦
        let e = last_frame io laws append seq w ws total f fine d in
        (
          record { seq = seq; status = ok; written = add_total total (length w.payload) },
          ground (arith, e),
          inr (refl, ground (arith, e), add_total-sum total (length w.payload) small),
        )
  ]

  land_next :
      (w : WriteRequest) (ws : List WriteRequest) (total sum : ℕ) (rest : List ℕ) (f : File)
      → w.done ≡ false
      → total + length w.payload < word_mod
      → Lands
          (write_frames io append seq ws
            (total + length w.payload)
            (write (position append w.offset f) w.payload f))
          (position append w.offset f + length w.payload)
          rest
          (write (position append w.offset f) w.payload f)
          sum
      → Lands
          (write_frames io append seq (w ∷ ws) total f)
          (position append w.offset f)
          (w.payload ++ rest)
          f
          sum
  land_next w ws total sum rest f d small later =
      elim (Option-cases (write_at io append w.offset w.payload f).1) [
        | inr (k, failure) ↦
            let (r, answered, wrong) = frame_fails io laws append seq w ws total f k failure in
            (r, answered, inl wrong)
        | inl fine ↦
            let e =
              rw (add_total-sum total (length w.payload) small) at
                (next_frame io laws append seq w ws total f fine d) in
            rw (e, write-append) later
      ]

chunks_of-nil : (fuel n : ℕ) → chunks_of fuel n [] ≡ []
unfolding chunks_of
chunks_of-nil zero n = refl
chunks_of-nil (suc fuel) n = refl

length-chunks_of-pos :
    (fuel n : ℕ) (xs : List ℕ) → xs ≢ [] → length xs ≤ fuel → 0 < length (chunks_of fuel n xs)
unfolding chunks_of
length-chunks_of-pos fuel n [] h g = absurd (h refl)
length-chunks_of-pos zero n (x ∷ xs) h g = absurd (omega arith)
length-chunks_of-pos (suc fuel) n (x ∷ xs) h g = omega arith

List-cases : (xs : List ℕ) → (xs ≡ []) ⊎ (xs ≢ [])
List-cases [] = inl refl
List-cases (x ∷ xs) = inr (λ e. cc)

length-pos : (xs : List ℕ) → xs ≢ [] → 0 < length xs
length-pos [] h = absurd (h refl)
length-pos (x ∷ xs) h = omega arith

-- Where the next frame goes: behind the one before it.
position-next :
    (append : Bool) (o p : ℕ) (c : List ℕ) (f : File)
    → p ≡ o + length c
    → position append p (write (position append o f) c f) ≡ position append o f + length c
position-next true o p c f e = ground (arith, size-write f.size c f)
position-next false o p c f e = e

module _ (io : Io) (laws : WriteLaws io) (append : Bool) (seq : ℕ) where
  frames_last :
      (w : WriteRequest) (ws : List WriteRequest) (rest : List ℕ) (total sum : ℕ) (f : File)
      → rest ≡ []
      → w.done ≡ true
      → total + length w.payload ≡ sum
      → sum < word_mod
      → Lands
          (write_frames io append seq (w ∷ ws) total f)
          (position append w.offset f)
          (w.payload ++ rest)
          f
          sum
  frames_last w ws rest total sum f last d s small =
      rw (last, append-nil w.payload, ← s)
        (land_last io laws append seq w ws total f d (omega arith))

succ_times : (i n : ℕ) → (i + 1) * n ≡ i * n + n
succ_times i n = omega arith

module _ (io : Io) (laws : WriteLaws io) (append : Bool) (seq handle offset n : ℕ)
    (pos : 0 < n) where
  pub frames_land :
      (fuel i m : ℕ) (xs : List ℕ) (total : ℕ) (f : File)
      → xs ≢ []
      → length xs ≤ fuel
      → m ≡ i + length (chunks_of fuel n xs)
      → offset + i * n + length xs < word_mod
      → total + length xs < word_mod
      → Lands
          (write_frames io append seq
            (frames_from seq handle offset n m i (chunks_of fuel n xs))
            total
            f)
          (position append (offset + i * n) f)
          xs
          f
          (total + length xs)
  unfolding chunks_of frames_from
  frames_land zero i m [] total f ne g e a b = absurd (ne refl)
  frames_land zero i m (x ∷ xs) total f ne g e a b = absurd (omega arith)
  frames_land (suc fuel) i m [] total f ne g e a b = absurd (ne refl)
  frames_land (suc fuel) i m (x ∷ xs) total f ne g e a b =
      let c : List ℕ = take n (x ∷ xs) in
      let rest : List ℕ = drop n (x ∷ xs) in
      let w : WriteRequest = record {
        seq = seq;
        handle = handle;
        offset = (offset + i * n) % word_mod;
        payload = c;
        done = i + 1 == m;
      } in
      let ws : List WriteRequest =
        frames_from seq handle offset n m (i + 1) (chunks_of fuel n rest) in
      let result : File × Option WriteResponse = write_frames io append seq (w ∷ ws) total f in
      let exact : (offset + i * n) % word_mod ≡ offset + i * n = omega arith in
      let whole : c ++ rest ≡ x ∷ xs = take-append-drop n (x ∷ xs) in
      let size : length c + length rest ≡ suc (length xs) =
        omega (arith, length-take n (x ∷ xs), length-drop n (x ∷ xs)) in
      let full : length c ≡ min n (suc (length xs)) = length-take n (x ∷ xs) in
      let left : length rest ≡ suc (length xs) - n = length-drop n (x ∷ xs) in
      let landed : Lands result (position append w.offset f) (c ++ rest) f
          (total + suc (length xs)) =
        elim (List-cases rest) [
          | inl last ↦
              frames_last io laws append seq w ws rest total (total + suc (length xs)) f last
                (ground (arith, g, last, chunks_of-nil fuel n))
                (omega (arith, ap (λ (l : List ℕ). length l) last)) b
          | inr more ↦
              let f' : File = write (position append w.offset f) c f in
              let more_left : 0 < length rest = length-pos rest more in
              let next : position append (offset + (i + 1) * n) f'
                  ≡ position append w.offset f + length c =
                position-next append w.offset (offset + (i + 1) * n) c f
                  (omega (arith, succ_times i n)) in
              let sums : total + length c + length rest ≡ total + suc (length xs) = omega arith in
              land_next io laws append seq w ws total (total + suc (length xs)) rest f
                (ground (arith, g, length-chunks_of-pos fuel n rest more (omega arith)))
                (omega arith)
                (subst
                  (λ o.
                    Lands (write_frames io append seq ws (total + length c) f') o rest f'
                      (total + suc (length xs)))
                  next
                  (subst
                    (λ t.
                      Lands (write_frames io append seq ws (total + length c) f')
                        (position append (offset + (i + 1) * n) f') rest f' t)
                    sums
                    (frames_land fuel (i + 1) m rest (total + length c) f' more (omega arith)
                      (omega arith) (omega (arith, succ_times i n)) (omega arith))))
        ] in
      subst (λ o. Lands result (position append o f) (x ∷ xs) f (total + suc (length xs))) exact
        (subst (λ l. Lands result (position append w.offset f) l f (total + suc (length xs))) whole
          landed)
