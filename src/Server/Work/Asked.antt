-- ===== src/Server/Work/Asked.antt =====
-- The changes of the database that the requests of src/protos/db.proto ask for.
use mathlib.Core.List.{append-nil}
use vector_db.Prelude.{
  ℕ, ◌<◌, ◌≡◌, ◌≢◌, refl, sym, ap, ◌∙◌, List, [], ◌∷◌, ◌++◌, append_assoc, map, Option, none, some,
  done, ◌>>=◌, false, ◌||◌, Bytes, length, ◌*◌, ◌%◌, ◌^◌, take-all, All, arith,
}
use vector_db.FloatVector.{FloatVector, Metadata, from_array, add_metadata}
use vector_db.FloatVector.Values.{from_array_lem}
use vector_db.Index.{hnsw, ivf_flat, of_hnsw, of_ivf, hnsw_params}
use vector_db.Distance.{DistType, cosine, euclidean, inner_product, unknown}
use vector_db.IvfFlat.{is_empty_list}
use vector_db.Wire.{proto_to_db_dist}
use vector_db.Database.Store.{
  Call, adds_collection, deletes_collection, adds_vectors, deletes_vectors, adds_index,
}
use vector_db.Server.Messages.{
  VectorMessage, ParamsMessage, hnsw_params_message, ivf_params_message, Request, create_collection,
  delete_collection, upsert, stream_upsert, delete_vector, add_index,
}
use vector_db.Server.Work.{to_vector, to_vectors, hnsw_request, ivf_request, add_all_metadata}

-- The metadata of a message, if there are any.
abbrev kept_metadata : Option Metadata → Option Metadata
kept_metadata none = none
kept_metadata (some []) = none
kept_metadata (some (entry ∷ m)) = some (entry ∷ m)

-- The id and the vector of a message.
abbrev pub entry_of : VectorMessage → ℕ × FloatVector
entry_of message = (
  message.id,
  record {
    elements = message.values;
    metadata = kept_metadata message.metadata;
    dimension = length message.values;
  },
)

-- The number of floats is an `int`.
abbrev pub IsShort : VectorMessage → Type 0
IsShort message = length message.values < 2 ^ 31

abbrev HasNames : Bytes → Bytes → Type 0
HasNames name index_name = (is_empty_list name || is_empty_list index_name) ≡ false

-- The parameters are of the other type, or there are none.
abbrev HasNoHnsw : Option ParamsMessage → Type 0
HasNoHnsw params = (t m c s : ℕ) → params ≢ some (hnsw_params_message t m c s)

abbrev HasNoIvf : Option ParamsMessage → Type 0
HasNoIvf params = (t k p r : ℕ) → params ≢ some (ivf_params_message t k p r)

-- The change that a request asks for. An index is asked for by its number in db.proto, with the parameters of
-- the message or, where it has none of that type, with the defaults.
pub data AsksFor (draws : ℕ → ℕ) : Request → Call → Type 0 where
  creates :
      (name : Bytes) (dimension : ℕ)
      → AsksFor draws (create_collection name dimension) (adds_collection name dimension)
  deletes : (name : Bytes) → AsksFor draws (delete_collection name) (deletes_collection name)
  upserts :
      (name : Bytes) (messages : List VectorMessage)
      → All IsShort messages
      → AsksFor draws (upsert name messages) (adds_vectors name (map entry_of messages))
  streams :
      (name : Bytes) (messages : List VectorMessage)
      → All IsShort messages
      → AsksFor draws (stream_upsert name messages) (adds_vectors name (map entry_of messages))
  removes :
      (name : Bytes) (ids : List ℕ)
      → AsksFor draws (delete_vector name ids) (deletes_vectors name ids)
  indexes_hnsw :
      (name index_name : Bytes) (t m ef_construction ef_search : ℕ)
      → HasNames name index_name
      → proto_to_db_dist t ≢ unknown
      → AsksFor draws
          (add_index name index_name 1 (some (hnsw_params_message t m ef_construction ef_search)))
          (adds_index draws name index_name hnsw (
            some (
              of_hnsw (record {
                dist_type = proto_to_db_dist t;
                m = m;
                m0 = 2 * m % 2 ^ 32;
                ef_construction = ef_construction;
                ef_search = ef_search;
              }))))
  indexes_hnsw_by_default :
      (name index_name : Bytes) (params : Option ParamsMessage)
      → HasNames name index_name
      → HasNoHnsw params
      → AsksFor draws (add_index name index_name 1 params) (
          adds_index draws name index_name hnsw (
            some (
              of_hnsw (record {
                dist_type = cosine;
                m = 16;
                m0 = 32;
                ef_construction = 64;
                ef_search = 32;
              }))))
  indexes_ivf :
      (name index_name : Bytes) (t k n_probe rebuild_threshold : ℕ)
      → HasNames name index_name
      → AsksFor draws
          (add_index name index_name 0 (some (ivf_params_message t k n_probe rebuild_threshold)))
          (adds_index draws name index_name ivf_flat (
            some (
              of_ivf (record {
                dist_type = proto_to_db_dist t;
                k = k;
                n_probe = n_probe;
                rebuild_threshold = rebuild_threshold;
              }))))
  indexes_ivf_by_default :
      (name index_name : Bytes) (params : Option ParamsMessage)
      → HasNames name index_name
      → HasNoIvf params
      → AsksFor draws (add_index name index_name 0 params) (
          adds_index draws name index_name ivf_flat (
            some (
              of_ivf (record {
                dist_type = euclidean;
                k = 100;
                n_probe = 10;
                rebuild_threshold = 1000;
              }))))

-- The entries are put behind those that are there.
add_all_metadata_lem :
    (m held : Metadata) (values : List ℕ) (n : ℕ)
    → add_all_metadata m (record { elements = values; metadata = some held; dimension = n })
      ≡ record { elements = values; metadata = some (held ++ m); dimension = n }
unfolding add_metadata
add_all_metadata_lem [] held values n =
    ap (λ l. record { elements = values; metadata = some l; dimension = n }) (sym (append-nil held))
add_all_metadata_lem ((key, value) ∷ m) held values n =
    add_all_metadata_lem m (held ++ ((key, value) ∷ [])) values n
    ∙ ap (λ l. record { elements = values; metadata = some l; dimension = n })
        (append_assoc held ((key, value) ∷ []) m)

abbrev plain : List ℕ → FloatVector
plain values = record { elements = values; metadata = none; dimension = length values }

with_metadata :
    (m : Option Metadata) (values : List ℕ)
    → elim m as (λ x. FloatVector) [
      | none ↦ plain values
      | some m ↦ add_all_metadata m (plain values)
    ]
      ≡ record (plain values) { metadata = kept_metadata m }
unfolding add_metadata
with_metadata none values = refl
with_metadata (some []) values = refl
with_metadata (some ((key, value) ∷ m)) values =
    add_all_metadata_lem m ((key, value) ∷ []) values (length values)

to_vector_lem :
    (message : VectorMessage) → IsShort message → to_vector message ≡ done (entry_of message).1
unfolding to_vector
to_vector_lem message short =
    let read : from_array (length message.values) message.values
        ≡ done (record {
          elements = message.values;
          metadata = none;
          dimension = length message.values;
        }) =
      from_array_lem (length message.values) message.values short (omega arith)
      ∙ ap (λ l. done (record { elements = l; metadata = none; dimension = length message.values }))
          (take-all (length message.values) message.values (omega arith)) in
    rw (read, ◌>>=◌) (ap done (with_metadata message.metadata message.values))

pub to_vectors_lem :
    (messages : List VectorMessage)
    → All IsShort messages
    → to_vectors messages ≡ done (map entry_of messages)
unfolding to_vectors
to_vectors_lem [] short = refl
to_vectors_lem (message ∷ messages) (s, short) =
    rw (to_vector_lem message s, to_vectors_lem messages short, ◌>>=◌) refl

hnsw_params-known :
    (t : DistType) (m c s : ℕ)
    → t ≢ unknown
    → hnsw_params t m c s
      ≡ done
          (record { dist_type = t; m = m; m0 = 2 * m % 2 ^ 32; ef_construction = c; ef_search = s })
unfolding hnsw_params
hnsw_params-known cosine m c s known = refl
hnsw_params-known euclidean m c s known = refl
hnsw_params-known inner_product m c s known = refl
hnsw_params-known unknown m c s known = absurd (known refl)

pub hnsw_request-given :
    (t m c s : ℕ)
    → proto_to_db_dist t ≢ unknown
    → hnsw_request (some (hnsw_params_message t m c s))
      ≡ done (
          of_hnsw (record {
            dist_type = proto_to_db_dist t;
            m = m;
            m0 = 2 * m % 2 ^ 32;
            ef_construction = c;
            ef_search = s;
          }))
unfolding hnsw_request
hnsw_request-given t m c s known =
    rw (hnsw_params-known (proto_to_db_dist t) m c s known, ◌>>=◌) refl

pub hnsw_request-default :
    (params : Option ParamsMessage)
    → HasNoHnsw params
    → hnsw_request params
      ≡ done (
          of_hnsw
            (record { dist_type = cosine; m = 16; m0 = 32; ef_construction = 64; ef_search = 32 }))
unfolding hnsw_request hnsw_params
hnsw_request-default none other = refl
hnsw_request-default (some (hnsw_params_message t m c s)) other = absurd (other t m c s refl)
hnsw_request-default (some (ivf_params_message t k p r)) other = refl

pub ivf_request-default :
    (params : Option ParamsMessage)
    → HasNoIvf params
    → ivf_request params
      ≡ of_ivf (record { dist_type = euclidean; k = 100; n_probe = 10; rebuild_threshold = 1000 })
unfolding ivf_request
ivf_request-default none other = refl
ivf_request-default (some (hnsw_params_message t m c s)) other = refl
ivf_request-default (some (ivf_params_message t k p r)) other = absurd (other t k p r refl)

pub ivf_request-given :
    (t k p r : ℕ)
    → ivf_request (some (ivf_params_message t k p r))
      ≡ of_ivf
          (record { dist_type = proto_to_db_dist t; k = k; n_probe = p; rebuild_threshold = r })
unfolding ivf_request
ivf_request-given t k p r = refl
