-- ===== src/Pipeline/Store.antt =====
-- internal/pipeline/store.go: the configuration of the object store. The environment is a list of
-- variables; an unset variable and an empty one read alike.
use go_gedung_peristiwa.Prelude.{
  ◌*◌, ◌≤◌, [], ◌∷◌, ◌++◌, Option, none, some, Bool, true, false, not, ◌&&◌, leb, ltb,
  if◌then◌else◌, ite, arith, ℕ_discrete,
}
use go_gedung_peristiwa.Prelude.Int.{ℤ, to_nat}
use go_gedung_peristiwa.Text.{Text, codes, is_empty}
use go_gedung_peristiwa.Assoc.{Assoc, lookup, insert}
use go_gedung_peristiwa.Time.{Duration, minute}
use go_gedung_peristiwa.Pipeline.Db.{Backend, minio, tigris}

-- 30 and 365 days
abbrev pub default_change_feed_retain_for : Duration
default_change_feed_retain_for = 43_200 * minute

abbrev pub max_change_feed_retain_for : Duration
max_change_feed_retain_for = 525_600 * minute

unfoldable pub normalize_change_feed_retain_for : ℤ → Duration
normalize_change_feed_retain_for d =
    if leb (to_nat d) 0
    then default_change_feed_retain_for
    else if ltb max_change_feed_retain_for (to_nat d)
    then max_change_feed_retain_for
    else to_nat d

abbrev pub Env : Type 0
Env = Assoc Text

-- os.Getenv
unfoldable pub getenv : Text → Env → Text
getenv k env = elim (lookup k env) [ none ↦ [] | some v ↦ v ]

unfoldable pub env_or : Env → Text → Text → Text
unfolding getenv
env_or env k default = let v = getenv k env in if is_empty v then default else v

-- `parse` is time.ParseDuration.
unfoldable pub change_feed_retain_for_from_env : (Text → Option ℤ) → Env → Text → Duration
unfolding getenv normalize_change_feed_retain_for
change_feed_retain_for_from_env parse env k =
    let v = getenv k env in
    if is_empty v then default_change_feed_retain_for else elim (parse v) [
      | none ↦ default_change_feed_retain_for
      | some d ↦ normalize_change_feed_retain_for d
    ]

pub record StoreConfig : Type 0 where
  pub backend : Backend
  pub prefix_root : Text
  pub cache_root : Text
  pub min_endpoint : Text
  pub min_bucket : Text
  pub tigris_bucket : Text
  pub change_feed_retain_for : Duration

unfoldable pub store_config_from_env : (Text → Option ℤ) → Env → Backend → Text → StoreConfig
unfolding env_or change_feed_retain_for_from_env
store_config_from_env parse env backend suffix = record {
  backend = backend;
  prefix_root = suffix;
  cache_root = codes "data/cache/gedung-peristiwa";
  min_endpoint = env_or env (codes "MINIO_ENDPOINT") (codes "localhost:9000");
  min_bucket = env_or env (codes "MINIO_BUCKET") (codes "gedung-peristiwa");
  tigris_bucket =
      env_or env (codes "TIGRIS_BUCKET")
        (env_or env (codes "MINIO_BUCKET") (codes "gedung-peristiwa"));
  change_feed_retain_for =
      change_feed_retain_for_from_env parse env (codes "CHANGEFEED_RETAIN_FOR");
}

unfoldable pub tenant_prefix_of : Text → Text → Text
tenant_prefix_of tenant suffix = if not (is_empty suffix) then tenant ++ b'-' ∷ suffix else tenant

-- `if os.Getenv(to) == "" { if v := os.Getenv(from); v != "" { os.Setenv(to, v) } }`
unfoldable pub copy_env : Text → Text → Env → Env
unfolding getenv
copy_env to from env =
    if is_empty (getenv to env)
    then (if not (is_empty (getenv from env)) then insert to (getenv from env) env else env)
    else env

unfoldable pub set_default : Text → Text → Env → Env
unfolding getenv
set_default k v env = if is_empty (getenv k env) then insert k v env else env

abbrev is_minio : Backend → Bool
is_minio minio = true
is_minio b = false

abbrev is_tigris : Backend → Bool
is_tigris tigris = true
is_tigris b = false

unfoldable pub ensure_s3_env : Backend → Env → Env
unfolding copy_env set_default
ensure_s3_env backend env =
    let env1 = copy_env (codes "AWS_ACCESS_KEY_ID") (codes "MINIO_ACCESS_KEY") env in
    let env2 = copy_env (codes "AWS_SECRET_ACCESS_KEY") (codes "MINIO_SECRET_KEY") env1 in
    let env3 =
      if is_minio backend
      then set_default (codes "AWS_REGION") (codes "us-east-1")
          (insert (codes "AWS_S3_USE_PATH_STYLE") (codes "true") env2)
      else env2 in
    if is_tigris backend then set_default (codes "AWS_REGION") (codes "auto") env3 else env3

-- strings.HasPrefix
unfoldable pub has_prefix : Text → Text → Bool
has_prefix s [] = true
has_prefix [] (b ∷ bs) = false
has_prefix (a ∷ s) (b ∷ bs) = ite (ℕ_discrete a b) (has_prefix s bs) false

unfoldable pub minio_bucket_url : Env → Text → Text → Text
unfolding env_or has_prefix
minio_bucket_url env bucket endpoint =
    let region = env_or env (codes "AWS_REGION") (codes "us-east-1") in
    let ep =
      if not (has_prefix endpoint (codes "http://")) && not (has_prefix endpoint (codes "https://"))
      then codes "http://" ++ endpoint
      else endpoint in
    codes "s3://"
    ++ (bucket
        ++ (codes "?endpoint="
            ++ (ep ++ (codes "&region=" ++ (region ++ codes "&use_path_style=true")))))

unfoldable pub tigris_bucket_url : Env → Text → Text
unfolding env_or
tigris_bucket_url env bucket =
    codes "s3://"
    ++ (bucket ++ (codes "?region=" ++ env_or env (codes "AWS_REGION") (codes "auto")))

-- Whatever the environment holds and however it parses, history is kept for 1 nanosecond at least
-- and for a year at most.
pub change_feed_retain_for_bounded :
    (parse : Text → Option ℤ) (env : Env) (k : Text)
    → let d = change_feed_retain_for_from_env parse env k in
      (1 ≤ d) × (d ≤ max_change_feed_retain_for)
unfolding change_feed_retain_for_from_env normalize_change_feed_retain_for
change_feed_retain_for_bounded parse env k = ground arith
