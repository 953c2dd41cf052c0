-- ===== src/Mirroring.antt =====
-- internal/mirroring/mirroring.go: jobs, sampling and the headers of a mirrored request. The children
-- prove what is removed from the headers, and hold the worker pool.
pub mod Headers
pub mod Listed
pub mod Pool
use l7_proxy.Prelude.{
  ℕ, Bool, true, false, not, List, [], ◌∷◌, ◌++◌, Option, none, some, if◌then◌else◌, map,
}
use l7_proxy.Prelude.Int.{ℤ, pos, ltb_ℤ}
use l7_proxy.Text.{Str, codes, is_empty, eq_str, trim_space, split}
use l7_proxy.Dict.{Dict, lookup}
use l7_proxy.Float.{Float64, fle, flt, zero_f, one_f}
use l7_proxy.Net.{Url}
use l7_proxy.Routing.{MirrorTarget}
use l7_proxy.Routing.Conditions.{canonical_key}

pub record Job : Type 0 where
  pub method : Str
  pub body : Str
  pub header : Dict (List Str)
  pub path : Str
  pub raw_query : Str
  pub targets : List MirrorTarget

unfoldable pub sample : Float64 → Float64 → Bool
sample ratio rnd =
    if fle ratio zero_f then false else if fle one_f ratio then true else flt rnd ratio

abbrev pub hop_by_hop_headers : List Str
hop_by_hop_headers =
    codes "Connection"
    ∷ codes "Proxy-Connection"
    ∷ codes "Keep-Alive"
    ∷ codes "Proxy-Authenticate"
    ∷ codes "Proxy-Authorization"
    ∷ codes "Te"
    ∷ codes "Trailer"
    ∷ codes "Transfer-Encoding"
    ∷ codes "Upgrade"
    ∷ []

-- delete(m, k)
unfoldable pub delete {ℓ} : {V : Type ℓ} → Str → Dict V → Dict V
delete k [] = []
delete k ((j, v) ∷ m) = if eq_str j k then delete k m else (j, v) ∷ delete k m

-- h.Del(name)
unfoldable pub del : Str → Dict (List Str) → Dict (List Str)
unfolding delete
del name h = delete (canonical_key name) h

unfoldable pub del_all : List Str → Dict (List Str) → Dict (List Str)
del_all [] h = h
del_all (name ∷ names) h = del_all names (del name h)

-- The names that the values of Connection list, one value after the other.
abbrev pub nonblank : List Str → List Str
nonblank [] = []
nonblank (s ∷ ss) =
    let name = trim_space s in if is_empty name then nonblank ss else name ∷ nonblank ss

abbrev pub listed_in : List Str → List Str
listed_in [] = []
listed_in (value ∷ values) = nonblank (split value b',') ++ listed_in values

abbrev pub values_of : Option (List Str) → List Str
values_of none = []
values_of (some vs) = vs

-- The names come off as the values are read; the values were taken when the loop began.
unfoldable pub remove_hop_by_hop_headers : Dict (List Str) → Dict (List Str)
unfolding del_all
remove_hop_by_hop_headers h =
    del_all hop_by_hop_headers (del_all (listed_in (values_of (lookup (codes "Connection") h))) h)

-- The request that send makes of a job for a target; the client's outcome is the environment's.
pub record MirrorRequest : Type 0 where
  pub method : Str
  pub url : Url
  pub header : Dict (List Str)
  pub body : Str

unfoldable pub mirror_request : Job → MirrorTarget → MirrorRequest
mirror_request j t = record {
  method = j.method;
  url = record (t.url) { path = j.path; raw_query = j.raw_query };
  header = remove_hop_by_hop_headers j.header;
  body = j.body;
}
