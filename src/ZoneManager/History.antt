-- ===== src/ZoneManager/History.antt =====
-- src/zone_manager.rs: the state after a load, and the chains of deltas of `ixfr_chain`.
use ironbind.Prelude.{
  ℕ, ◌+◌, ◌%◌, ◌^◌, ◌≤◌, ◌≡◌, ◌≢◌, refl, sym, ap, ◌⊎◌, inl, inr, false, Option, none, some, List,
  [], ◌∷◌, ◌++◌, Result, ok, err, arith, ◌==◌, ==_iff, if◌then◌else◌, length, All, Bool-cases,
  Option-cases,
}
use ironbind.Prelude.Text.{Bytes}
use ironbind.Prelude.Assoc.{bytes_key, lookup, lookup-insert}
use ironbind.Proto.Reader.{IoError}
use ironbind.Zone.{Zone}
use ironbind.ZoneManager.Delta.{ZoneDelta, build_delta}
use ironbind.ZoneManager.{
  ZoneManager, trim_front, or_empty, push_delta, record_edit, get_version, load_zone, get_zone,
  follow, chain_from, ixfr_chain,
}

trim_front-le : (cap : ℕ) (ds : List ZoneDelta) → length (trim_front cap ds) ≤ cap
unfolding trim_front
trim_front-le cap [] = omega arith
trim_front-le cap (d ∷ ds) = ground (arith, trim_front-le cap ds)

-- No zone keeps more deltas than the cap.
unfoldable pub IsBounded : ZoneManager → Type 0
IsBounded m =
    (origin : Bytes) (ds : List ZoneDelta)
    → lookup origin m.history ≡ some ds
    → length ds ≤ m.history_cap

push_delta-IsBounded :
    (origin : Bytes) (d : ZoneDelta) (m : ZoneManager)
    → IsBounded m
    → IsBounded (push_delta origin d m)
unfolding push_delta IsBounded
push_delta-IsBounded origin d m h = λ n ds e. ground (
  arith,
  bytes_key.beq_iff n origin,
  lookup-insert origin n (trim_front m.history_cap (or_empty (lookup origin m.history) ++ (d ∷ [])))
      m.history,
  trim_front-le m.history_cap (or_empty (lookup origin m.history) ++ (d ∷ [])),
  h n ds,
)

record_edit-IsBounded :
    (origin : Bytes) (z : Zone) (old : Option Zone) (m : ZoneManager)
    → IsBounded m
    → IsBounded (record_edit origin z old m)
unfolding record_edit
record_edit-IsBounded origin z none m h = h
record_edit-IsBounded origin z (some old) m h = elim (Option-cases (build_delta old z)) [
  | inl e ↦ rw (e, record_edit) h
  | inr (d, e) ↦ rw (e, record_edit) (push_delta-IsBounded origin d m h)
]

-- Loading a zone, with whatever result, keeps every history within the cap.
pub load_zone-IsBounded :
    (origin path : Bytes) (r : Result Zone IoError) (m : ZoneManager)
    → IsBounded m
    → IsBounded (load_zone origin path r m).0
unfolding load_zone IsBounded
load_zone-IsBounded origin path (err e) m h = h
load_zone-IsBounded origin path (ok z) m h =
    record_edit-IsBounded origin z (lookup origin m.zones) m h

record_edit_keeps :
    (origin : Bytes) (z : Zone) (old : Option Zone) (m : ZoneManager)
    → ((record_edit origin z old m).zones ≡ m.zones)
      × ((record_edit origin z old m).versions ≡ m.versions)
      × ((record_edit origin z old m).zone_files ≡ m.zone_files)
unfolding record_edit push_delta
record_edit_keeps origin z none m = (refl, refl, refl)
record_edit_keeps origin z (some old) m = ground arith

-- A load that fails changes nothing. One that succeeds makes the zone the active one, raises its
-- version by one, and leaves the zones and versions of every other origin as they were.
pub load_zone_effect :
    (origin path other : Bytes) (r : Result Zone IoError) (m : ZoneManager)
    → ((e : IoError) × (r ≡ err e) × (load_zone origin path r m ≡ (m, false)))
      ⊎ ((z : Zone) × (r ≡ ok z)
          × (get_zone other (load_zone origin path r m).0
              ≡ (if bytes_key.beq other origin then some z else get_zone other m))
          × (get_version other (load_zone origin path r m).0 ≡ (
              if bytes_key.beq other origin
              then (get_version origin m + 1) % 2 ^ 32
              else get_version other m)))
unfolding load_zone get_zone get_version
load_zone_effect origin path other (err e) m = inl (e, refl, refl)
load_zone_effect origin path other (ok z) m =
    let edited = record_edit origin z (lookup origin m.zones) m in
    let kept = record_edit_keeps origin z (lookup origin m.zones) m in
    inr (
      z,
      refl,
      ground (arith, lookup-insert origin other z edited.zones, kept),
      ground (
        arith,
        kept,
        lookup-insert origin other ((get_version origin edited + 1) % 2 ^ 32) edited.versions,
      ),
    )

-- Each delta starts at the serial where the one before it ended; the last one ends at `to`.
pub data IsChain : ℕ → List ZoneDelta → ℕ → Type 0 where
  stop : {s : ℕ} → IsChain s [] s
  link :
      {s to : ℕ} {d : ZoneDelta} {ds : List ZoneDelta}
      → d.from_serial ≡ s
      → IsChain d.to_serial ds to
      → IsChain s (d ∷ ds) to

-- The serial at the end of a queue.
abbrev end_serial : ℕ → List ZoneDelta → ℕ
end_serial s [] = s
end_serial s (d ∷ ds) = end_serial d.to_serial ds

follow-IsChain :
    (s : ℕ) (queue ds : List ZoneDelta)
    → follow s queue ≡ some ds
    → (ds ≡ queue) × IsChain s queue (end_serial s queue)
unfolding follow
follow-IsChain s [] ds h = (ground arith, stop)
follow-IsChain s (d ∷ queue) ds h = elim (Option-cases (follow d.to_serial queue)) [
  | inl e ↦ absurd (ground arith)
  | inr (rest, e) ↦
      let ih = follow-IsChain d.to_serial queue rest e in
      let start : d.from_serial ≡ s = ground arith in (ground (arith, ih.0), link start ih.1)
]

follow_complete :
    {s to : ℕ} (queue : List ZoneDelta) → IsChain s queue to → follow s queue ≡ some queue
unfolding follow
follow_complete [] c = refl
follow_complete (d ∷ queue) (link e c) = ground (arith, e, follow_complete queue c)

-- The deltas `ds` are the queue from its first delta at `s` on, and they are a chain.
pub record IsTail (s : ℕ) (queue ds : List ZoneDelta) : Type 0 where
  pub front : List ZoneDelta
  pub split : queue ≡ front ++ ds
  pub first : All (λ (d : ZoneDelta). d.from_serial ≢ s) front
  pub nonempty : ds ≢ []
  pub chain : IsChain s ds (end_serial s ds)

chain_from-IsTail :
    (s : ℕ) (queue ds : List ZoneDelta) → chain_from s queue ≡ some ds → IsTail s queue ds
unfolding chain_from
chain_from-IsTail s [] ds h = absurd (ground arith)
chain_from-IsTail s (d ∷ queue) ds h = elim (Bool-cases (d.from_serial == s)) [
  | inl e ↦ elim (Option-cases (follow d.to_serial queue)) [
    | inl n ↦ absurd (ground arith)
    | inr (rest, n) ↦
        let ih = follow-IsChain d.to_serial queue rest n in
        let whole : ds ≡ d ∷ queue = ground (arith, ih.0) in
        record {
          front = [];
          split = sym whole;
          first = tt;
          nonempty = λ p. ground arith;
          chain = rw whole (link ((==_iff d.from_serial s).0 e) ih.1);
        }
  ]
  | inr e ↦
      let later : chain_from s queue ≡ some ds = ground arith in
      let ih = chain_from-IsTail s queue ds later in
      record {
        front = d ∷ ih.front;
        split = ap (λ ys. d ∷ ys) ih.split;
        first = (ground arith, ih.first);
        nonempty = ih.nonempty;
        chain = ih.chain;
      }
]

chain_from_complete :
    (s to : ℕ) (front ds : List ZoneDelta)
    → All (λ (d : ZoneDelta). d.from_serial ≢ s) front
    → ds ≢ []
    → IsChain s ds to
    → chain_from s (front ++ ds) ≡ some ds
unfolding chain_from
chain_from_complete s to [] [] h n c = absurd (n refl)
chain_from_complete s to [] (d ∷ ds) h n (link e c) = ground (arith, e, follow_complete ds c)
chain_from_complete s to (x ∷ front) ds h n c =
    ground (arith, h.0, chain_from_complete s to front ds h.1 n c)

-- What `ixfr_chain` returns for a zone is the part of its history from the first delta that starts
-- at the asked serial on, and each delta in it starts where the one before it ended.
pub ixfr_chain-IsTail :
    (origin : Bytes) (s : ℕ) (m : ZoneManager) (ds : List ZoneDelta)
    → ixfr_chain origin s m ≡ some ds
    → (queue : List ZoneDelta) × (lookup origin m.history ≡ some queue) × IsTail s queue ds
unfolding ixfr_chain
ixfr_chain-IsTail origin s m ds h = elim (Option-cases (lookup origin m.history)) [
  | inl e ↦ absurd (ground arith)
  | inr (queue, e) ↦ (queue, e, chain_from-IsTail s queue ds (ground arith))
]

-- Wherever the history of a zone has a chain of deltas from its first delta at the asked serial to
-- its end, `ixfr_chain` returns it.
pub ixfr_chain_complete :
    (origin : Bytes) (s : ℕ) (m : ZoneManager) (queue ds : List ZoneDelta)
    → lookup origin m.history ≡ some queue
    → IsTail s queue ds
    → ixfr_chain origin s m ≡ some ds
unfolding ixfr_chain
ixfr_chain_complete origin s m queue ds e t =
    rw (e, ixfr_chain, t.split)
      (chain_from_complete s (end_serial s ds) t.front ds t.first t.nonempty t.chain)
