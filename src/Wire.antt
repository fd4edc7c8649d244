-- ===== src/Wire.antt =====
-- src/include/grpc_server/util.h: how the server turns the enumerations of src/protos/db.proto, which are
-- open, into those of the core and back, and status codes into gRPC statuses.
use Prim.Native.String.{String}
use vector_db.Prelude.{ℕ, zero, suc, ◌<◌, ◌≡◌, ◌≢◌, ◌↔◌, refl, arith}
use vector_db.Status.{
  Status, success, collection_already_exists, collection_does_not_exist, dimension_cant_be_zero,
  collection_name_cant_be_empty, collection_name_too_long, collection_name_invalid_characters,
  vector_dimension_mismatch, index_does_not_exist, internal_error, status_to_string,
}
use vector_db.Index.{IndexType, ivf_flat, hnsw, unknown_index}
use vector_db.Distance.{DistType, cosine, euclidean, inner_product, unknown}

unfoldable pub proto_to_db_index : ℕ → IndexType
proto_to_db_index zero = ivf_flat
proto_to_db_index (suc zero) = hnsw
proto_to_db_index _ = unknown_index

unfoldable pub proto_to_db_dist : ℕ → DistType
proto_to_db_dist zero = cosine
proto_to_db_dist (suc zero) = euclidean
proto_to_db_dist (suc (suc zero)) = inner_product
proto_to_db_dist _ = unknown

unfoldable pub db_dist_to_proto : DistType → ℕ
db_dist_to_proto cosine = 0
db_dist_to_proto euclidean = 1
db_dist_to_proto inner_product = 2
db_dist_to_proto unknown = 1

-- The codes of `grpc::StatusCode` that the server uses.
pub data Code : Type 0 where
  ok : Code
  already_exists : Code
  not_found : Code
  invalid_argument : Code
  internal : Code

pub record GrpcStatus : Type 0 where
  pub code : Code
  pub message : String

abbrev pub grpc_status : Code → String → GrpcStatus
grpc_status c m = record { code = c; message = m }

unfoldable pub status_to_grpc_status : Status → GrpcStatus
status_to_grpc_status success = grpc_status ok ""
status_to_grpc_status collection_already_exists =
    grpc_status already_exists "collection already exists"
status_to_grpc_status collection_does_not_exist = grpc_status not_found "collection does not exist"
status_to_grpc_status dimension_cant_be_zero = grpc_status invalid_argument "dimension cant be zero"
status_to_grpc_status collection_name_cant_be_empty =
    grpc_status invalid_argument "collection name cant be empty"
status_to_grpc_status collection_name_too_long =
    grpc_status invalid_argument "collection name is too long"
status_to_grpc_status collection_name_invalid_characters =
    grpc_status invalid_argument "collection name contains invalid characters"
status_to_grpc_status vector_dimension_mismatch =
    grpc_status invalid_argument "vector dimension mismatch with collection"
status_to_grpc_status index_does_not_exist = grpc_status not_found "index does not exist"
status_to_grpc_status internal_error = grpc_status internal "internal error"

-- A status is sent as OK exactly if it is `success`; every other is sent with the text that
-- `status_to_string` has for it.
pub status_to_grpc_status_lem :
    (s : Status)
    → (((status_to_grpc_status s).code ≡ ok) ↔ (s ≡ success))
      × (s ≢ success → (status_to_grpc_status s).message ≡ status_to_string s)
unfolding status_to_grpc_status status_to_string
status_to_grpc_status_lem success = ((λ h. refl, λ h. refl), λ n. absurd (n refl))
status_to_grpc_status_lem collection_already_exists = ((λ h. cc, λ h. cc), λ n. refl)
status_to_grpc_status_lem collection_does_not_exist = ((λ h. cc, λ h. cc), λ n. refl)
status_to_grpc_status_lem dimension_cant_be_zero = ((λ h. cc, λ h. cc), λ n. refl)
status_to_grpc_status_lem collection_name_cant_be_empty = ((λ h. cc, λ h. cc), λ n. refl)
status_to_grpc_status_lem collection_name_too_long = ((λ h. cc, λ h. cc), λ n. refl)
status_to_grpc_status_lem collection_name_invalid_characters = ((λ h. cc, λ h. cc), λ n. refl)
status_to_grpc_status_lem vector_dimension_mismatch = ((λ h. cc, λ h. cc), λ n. refl)
status_to_grpc_status_lem index_does_not_exist = ((λ h. cc, λ h. cc), λ n. refl)
status_to_grpc_status_lem internal_error = ((λ h. cc, λ h. cc), λ n. refl)

dist_there_and_back : (t : DistType) → (proto_to_db_dist (db_dist_to_proto t) ≡ t) ↔ (t ≢ unknown)
unfolding proto_to_db_dist db_dist_to_proto
dist_there_and_back cosine = (λ h e. cc, λ n. refl)
dist_there_and_back euclidean = (λ h e. cc, λ n. refl)
dist_there_and_back inner_product = (λ h e. cc, λ n. refl)
dist_there_and_back unknown = (λ h. cc, λ n. absurd (n refl))

dist_back_and_there : (n : ℕ) → n < 3 → db_dist_to_proto (proto_to_db_dist n) ≡ n
unfolding proto_to_db_dist db_dist_to_proto
dist_back_and_there zero h = refl
dist_back_and_there (suc zero) h = refl
dist_back_and_there (suc (suc zero)) h = refl
dist_back_and_there (suc (suc (suc n))) h = absurd (omega arith)

-- A type of distance survives the way to the client and back exactly if it is a known one, and so does
-- every value of the enumeration of the protocol on the way to the core and back.
pub db_dist_to_proto_lem :
    ((t : DistType) → (proto_to_db_dist (db_dist_to_proto t) ≡ t) ↔ (t ≢ unknown))
    × ((n : ℕ) → n < 3 → db_dist_to_proto (proto_to_db_dist n) ≡ n)
db_dist_to_proto_lem = (dist_there_and_back, dist_back_and_there)
