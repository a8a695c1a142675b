-- ===== src/Client/Send.antt =====
-- client/src/conn.rs, `write`: the data of one Write RPC, cut into frames.
use quicfs.Base.{ℕ, zero, suc, ◌+◌, ◌*◌, ◌%◌, max, List, [], ◌∷◌, ◌==◌, length, take, drop}
use quicfs.Client.WriteBuf.{word_mod}
use quicfs.Server.Write.{WriteRequest}

-- `data.chunks(n)`: pieces of `n` bytes, and a shorter one at the end. The fuel is the number of
-- bytes that are left, which each piece lowers.
unfoldable pub chunks_of : ℕ → ℕ → List ℕ → List (List ℕ)
chunks_of zero n payload = []
chunks_of (suc fuel) n [] = []
chunks_of (suc fuel) n (x ∷ xs) = take n (x ∷ xs) ∷ chunks_of fuel n (drop n (x ∷ xs))

unfoldable pub chunks : ℕ → List ℕ → List (List ℕ)
unfolding chunks_of
chunks n payload = chunks_of (length payload) n payload

-- The loop over `chunks.iter().enumerate()`, from the `i`-th of `n` chunks on.
unfoldable pub frames_from : ℕ → ℕ → ℕ → ℕ → ℕ → ℕ → List (List ℕ) → List WriteRequest
frames_from seq handle offset chunk_size n i [] = []
frames_from seq handle offset chunk_size n i (c ∷ cs) =
    record {
      seq = seq;
      handle = handle;
      offset = (offset + i * chunk_size) % word_mod;
      payload = c;
      done = i + 1 == n;
    }
    ∷ frames_from seq handle offset chunk_size n (i + 1) cs

-- The frames of `write(handle, offset, data)`; the chunk size is at least 1.
unfoldable pub write_rpc : ℕ → ℕ → ℕ → ℕ → List ℕ → List WriteRequest
unfolding chunks frames_from
write_rpc configured seq handle offset payload =
    let size : ℕ = max configured 1 in
    let cs : List (List ℕ) = chunks size payload in
    frames_from seq handle offset size (length cs) 0 cs
