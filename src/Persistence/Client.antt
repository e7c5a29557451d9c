-- ===== src/Persistence/Client.antt =====
-- MongoClient of include/persistence/mongo_client.h and src/persistence/mongo_client.cpp.
use sip_event_processor.Prelude.{
  ℕ, Bool, true, false, not, Text, ℤ, pos, is_positive, if◌then◌else◌,
}
use sip_event_processor.Types.{Result, ok, persistence_error}

pub record MongoClient : Type 0 where
  pub mongo_uri : Text
  pub mongo_pool_max_size : ℤ
  pub connected : Bool
  pub operations : ℕ
  pub errors : ℕ

-- `init` tells whether MongoPool::init returns 0 for a URI and a pool size. The query that
-- verifies the connection is empty; `ping` is its Execute.
unfoldable pub connect : (Text → ℤ → Bool) → Bool → MongoClient → MongoClient × Result
connect init ping m =
    let pool_size = if is_positive m.mongo_pool_max_size then m.mongo_pool_max_size else pos 10 in
    if not (init m.mongo_uri pool_size)
    then (m, persistence_error)
    else if not ping
    then (m, persistence_error)
    else (record m { connected = true }, ok)

unfoldable pub disconnect : MongoClient → MongoClient
disconnect m = record m { connected = false }
