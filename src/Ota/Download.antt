-- ===== src/Ota/Download.antt =====
-- `_download` of src/ota/agent.py: the limit on the size, the guard on the free disk and the stream.
use wqm.Prelude.{
  ℕ, ◌+◌, ◌*◌, ◌/◌, ltb, min, max, not, Option, none, some, List, [], ◌∷◌, if◌then◌else◌,
}
use wqm.Ota.Verify.{Target}

abbrev pub free_disk_factor : ℕ
free_disk_factor = 3

-- What the server answers, with the free disk: the length that it declares, and its chunks, of which one
-- that cannot be read or written is none.
pub data Response : Type 0 where
  unreachable : Response
  response : ℕ → ℕ → List (Option ℕ) → Response

-- `int(size_hint * 1.05)`, in whole numbers
unfoldable pub limit_of : ℕ → ℕ → ℕ
limit_of max_bundle size = if ltb 0 size then min max_bundle (size * 105 / 100) else max_bundle

-- The bytes written, or none where the download raises.
unfoldable pub stream : ℕ → ℕ → List (Option ℕ) → Option ℕ
stream limit written [] = some written
stream limit written (none ∷ chunks) = none
stream limit written (some chunk ∷ chunks) =
    let rest = stream limit (written + chunk) chunks in
    if ltb limit (written + chunk) then none else rest

unfoldable pub receive : ℕ → ℕ → Response → Option ℕ
receive limit size unreachable = none
receive limit size (response declared free chunks) =
    if ltb limit declared
    then none
    else if ltb free (free_disk_factor * max (max declared size) 1)
    then none
    else stream limit 0 chunks

unfoldable pub download : ℕ → Target → Response → Option ℕ
download max_bundle target answer =
    if not target.has_url
    then none
    else receive (limit_of max_bundle target.size_bytes) target.size_bytes answer
