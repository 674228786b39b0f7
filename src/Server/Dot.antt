-- ===== src/Server/Dot.antt =====
-- src/dot.rs: the messages of a DNS-over-TLS connection. TLS is the bytes that it carries.
use ironbind.Prelude.{ℕ, suc, ◌+◌, ◌*◌, [], ◌∷◌, ◌++◌, ltb, ◌==◌, if◌then◌else◌, length, take, drop}
use ironbind.Prelude.Text.{Bytes}
use ironbind.Config.Network.{IpAddr}
use ironbind.RateLimit.{Float}
use ironbind.Metrics.{record_tcp_query}
use ironbind.Server.State.{Outside, note}
use ironbind.Server.Serve.{Serving, Moment, framed, note_core, handle_query_public}

module _ {F W : Type 0} (float : Float F) (hash : Bytes → ℕ) (out : Outside W) where
  -- The loop from message `n` on; no zone is transferred here.
  unfoldable pub tls_loop :
      ℕ → (ℕ → Moment) → ℕ → IpAddr → Bytes → Serving F W → Bytes × Serving F W
  unfolding handle_query_public
  tls_loop (suc fuel) at n ip (hi ∷ lo ∷ rest) s =
      let qlen = hi * 256 + lo in
      let (answer, s1) =
        handle_query_public float hash out (at n) ip (take qlen rest)
          (note_core (note record_tcp_query) s) in
      let (more, s2) = tls_loop fuel at (n + 1) ip (drop qlen rest) s1 in
      if qlen == 0
      then ([], s)
      else if ltb (length rest) qlen
      then ([], s)
      else (framed answer ++ more, s2)
  tls_loop fuel at n ip input s = ([], s)

  unfoldable pub handle_tls_stream :
      (ℕ → Moment) → IpAddr → Bytes → Serving F W → Bytes × Serving F W
  unfolding tls_loop
  handle_tls_stream at ip input s = tls_loop (length input) at 0 ip input s
