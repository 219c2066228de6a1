-- ===== src/FetchRouter.antt =====
-- src/nodeagent/core/data_dependency_fetcher_router.cc and object_cache.cc: which data dependencies
-- are cached, and the fetches that are started for the others. A fetcher is an extension, known by
-- its number; `fetches` are the calls of `Fetch`, oldest first.
use Prim.Native.String.{◌++◌ as join}
use strij.Base.{
  ℕ, String, Bool, not, ◌||◌, List, [], ◌∷◌, ◌++◌, none, some, Assoc, lookup, contains, insert, all,
}
use strij.Task.{DataRef}

pub record Fetch : Type 0 where
  pub fetcher : ℕ
  pub ref : DataRef
  pub task_id : String

pub record Router : Type 0 where
  pub by_source : Assoc ℕ
  pub objects : Assoc (List ℕ)
  pub task_id_tokens : Assoc String
  pub fetches : List Fetch

-- `CacheKey`
unfoldable pub cache_key : DataRef → String
cache_key ref = join (join ref.source ":") ref.key

-- `InMemoryObjectCache::Populate`
unfoldable pub populate : Router → DataRef → List ℕ → Router
unfolding cache_key
populate r ref bytes = record r { objects = insert (cache_key ref) bytes r.objects }

-- `InMemoryObjectCache::IsCached`
unfoldable pub is_cached : Router → DataRef → Bool
unfolding cache_key
is_cached r ref = contains (cache_key ref) r.objects

-- `AllCached`
unfoldable pub all_cached : Router → List DataRef → Bool
unfolding is_cached
all_cached r deps = all (λ ref. not (contains ref.source r.by_source) || is_cached r ref) deps

-- `FetchAll`: the token keeps the task id alive, and is made once.
unfoldable pub start_fetches : Router → List DataRef → String → Router
start_fetches r [] task_id = r
start_fetches r (ref ∷ deps) task_id = elim (lookup ref.source r.by_source) [
  | none ↦ start_fetches r deps task_id
  | some fetcher ↦
      start_fetches
        (record r {
          fetches = r.fetches ++ record { fetcher = fetcher; ref = ref; task_id = task_id } ∷ [];
        })
        deps task_id
]

unfoldable pub fetch_all : Router → List DataRef → String → Router
unfolding start_fetches
fetch_all r deps task_id = elim (lookup task_id r.task_id_tokens) [
  | none ↦
      start_fetches (record r { task_id_tokens = insert task_id task_id r.task_id_tokens }) deps
        task_id
  | some token ↦ start_fetches r deps token
]
