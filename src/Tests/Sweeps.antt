-- ===== src/Tests/Sweeps.antt =====
-- The cache over a short history.
use ironbind.Prelude.{◌*◌, ◌^◌, ◌≡◌, List, [], ◌∷◌, arith}
use ironbind.Prelude.Text.{Bytes, codes}
use ironbind.Prelude.Assoc.{IsUnique, pair_key}
use ironbind.Proto.RType.{RType}
use ironbind.Cache.{nx_domain, empty, get}
use ironbind.Cache.Eviction.{Op, put_positive, put_negative, evict, run, writes, get_after_sweeps}

abbrev host : Bytes
host = codes "www.example"

abbrev history : List Op
history =
    put_positive 0 host RType.a [] 5
    ∷ evict 3
    ∷ put_negative 4 (codes "no.example") RType.a nx_domain 0
    ∷ evict (9 * 10 ^ 9)
    ∷ []

empty-IsUnique : IsUnique empty.inner
empty-IsUnique = unfold empty in tt

get_after_sweeps_example :
    get (10 ^ 10) host RType.a (run history empty)
    ≡ get (10 ^ 10) host RType.a (run (writes history) empty)
get_after_sweeps_example =
    get_after_sweeps 0 (9 * 10 ^ 9) history empty
      (omega arith, (omega arith, (omega arith, (omega arith, omega arith)))) empty-IsUnique
      (10 ^ 10) host RType.a (omega arith)
