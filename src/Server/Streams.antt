-- ===== src/Server/Streams.antt =====
-- src/server.rs: `handle_tcp` on a stream of messages.
use ironbind.Prelude.{
  ℕ, zero, suc, ◌+◌, ◌*◌, ◌/◌, ◌%◌, ◌^◌, ◌≤◌, ◌<◌, ◌≡◌, refl, false, List, [], ◌∷◌, ◌++◌, arith,
  ltb, ◌==◌, length, take-append, drop-append, length-append, append_assoc, All,
}
use ironbind.Prelude.Text.{Bytes}
use ironbind.Config.Network.{IpAddr}
use ironbind.RateLimit.{Float}
use ironbind.Server.State.{Outside}
use ironbind.Server.Serve.{Serving, Moment, frames, serve_message, tcp_loop, handle_tcp}

-- A message that a stream can carry and that does not end it.
abbrev pub IsMessage : Bytes → Type 0
IsMessage m = (0 < length m) × (length m < 2 ^ 16)

length-frames : (ms : List Bytes) → length ms ≤ length (frames ms)
unfolding frames
length-frames [] = omega arith
length-frames (m ∷ ms) = omega (arith, length-frames ms, length-append m (frames ms))

module _ {F W : Type 0} (float : Float F) (hash : Bytes → ℕ) (out : Outside W) (at : ℕ → Moment)
    (ip : IpAddr) where
  -- The messages one after another, each from the state that the one before it left.
  pub serve_each : ℕ → List Bytes → Serving F W → Bytes × Serving F W
  serve_each n [] s = ([], s)
  serve_each n (m ∷ ms) s =
      let (sent, s1) = serve_message float hash out (at n) ip m s in
      let (more, s2) = serve_each (n + 1) ms s1 in (sent ++ more, s2)

  tcp_loop-frames :
      (fuel n : ℕ) (ms : List Bytes) (rest : Bytes) (s : Serving F W)
      → All IsMessage ms
      → length rest < 2
      → length ms ≤ fuel
      → tcp_loop float hash out fuel at n ip (frames ms ++ rest) s ≡ serve_each n ms s
  unfolding frames tcp_loop serve_each
  tcp_loop-frames zero n [] rest s h short enough = refl
  tcp_loop-frames (suc fuel) n [] [] s h short enough = refl
  tcp_loop-frames (suc fuel) n [] (x ∷ []) s h short enough = refl
  tcp_loop-frames (suc fuel) n [] (x ∷ y ∷ rest) s h short enough = absurd (omega arith)
  tcp_loop-frames zero n (m ∷ ms) rest s h short enough = absurd (omega arith)
  tcp_loop-frames (suc fuel) n (m ∷ ms) rest s ((some_bytes, fits), hs) short enough =
      let after = frames ms ++ rest in
      let size : length m % 2 ^ 16 / 2 ^ 8 % 256 * 256 + length m % 2 ^ 16 % 256 ≡ length m =
        omega arith in
      let all : ltb (length (m ++ after)) (length m) ≡ false =
        ground (arith, length-append m after) in
      let more : (length m == 0) ≡ false = ground arith in
      let ih =
        tcp_loop-frames fuel (n + 1) ms rest (serve_message float hash out (at n) ip m s).1 hs short
          (omega arith) in
      rw
        (
          tcp_loop,
          append_assoc m (frames ms) rest,
          size,
          take-append m after,
          drop-append m after,
          more,
          all,
          ih,
        )
        refl

  -- On a connection, messages of 1 to 65535 bytes that follow one another are answered one by one,
  -- in their order, each from the state that the one before it left, and a byte that is left over
  -- ends the connection; the fuel of the loop is enough for them.
  pub handle_tcp-frames :
      (ms : List Bytes) (rest : Bytes) (s : Serving F W)
      → All IsMessage ms
      → length rest < 2
      → handle_tcp float hash out at ip (frames ms ++ rest) s ≡ serve_each 0 ms s
  unfolding handle_tcp
  handle_tcp-frames ms rest s h short =
      tcp_loop-frames (length (frames ms ++ rest)) 0 ms rest s h short
        (omega (arith, length-frames ms, length-append (frames ms) rest))
