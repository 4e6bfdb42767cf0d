-- ===== src/Oracle/Views/Pages.antt =====
-- The pages of `get_requests` against `get_request_by_id` (oracle/src/data_request.rs).
use oracle_monorepo_near.Base.{
  ℕ, zero, suc, ◌+◌, ◌-◌, ◌≤◌, ◌<◌, ◌≡◌, refl, ap, min, ◌⊎◌, some, List, [], ◌∷◌, arith, length,
  get_elem?, get_elem?-there,
}
use oracle_monorepo_near.Near.{ok, checked_add-of-lt, u64_mod}
use oracle_monorepo_near.Oracle.Types.{DataRequest, Contract}
use oracle_monorepo_near.Oracle.Views.{
  DataRequestSummary, summarize, get_request_by_id, collect_requests, get_requests,
}

-- A page of `n` requests from index `i` on.
abbrev IsPage : ℕ → ℕ → Contract → List DataRequestSummary → Type 0
IsPage n i c ds = (length ds ≡ n) × ((k : ℕ) → k < n → get_elem? ds k ≡ get_request_by_id (i + k) c)

page_entry :
    (d : DataRequest) (ds : List DataRequestSummary) (n i : ℕ) (c : Contract)
    → get_elem? c.data_requests i ≡ some d
    → ((k : ℕ) → k < n → get_elem? ds k ≡ get_request_by_id (suc i + k) c)
    → (k : ℕ) → k < suc n
    → get_elem? (summarize d ∷ ds) k ≡ get_request_by_id (i + k) c
unfolding get_request_by_id
page_entry d ds n i c at entries zero l =
    let e : i + 0 ≡ i = omega arith in rw (e, get_request_by_id, at) refl
page_entry d ds n i c at entries (suc k) l =
    let e : i + suc k ≡ suc i + k = omega arith in rw e (entries k (omega arith))

collect_requests-IsPage :
    (n i : ℕ) (c : Contract)
    → i + n ≤ length c.data_requests ⊎ (n ≡ 0)
    → (ds : List DataRequestSummary) × (collect_requests n i c ≡ ok ds) × IsPage n i c ds
unfolding collect_requests
collect_requests-IsPage zero i c h = ([], refl, (refl, λ k l. absurd (omega arith)))
collect_requests-IsPage (suc n) i c h =
    let (d, at) = get_elem?-there c.data_requests i (ground arith) in
    let (ds, rest, (size, entries)) = collect_requests-IsPage n (suc i) c (ground arith) in
    (summarize d ∷ ds, rw (at, rest) refl, (ap suc size, page_entry d ds n i c at entries))

-- Where the end of the page is a 64-bit number, get_requests returns. The page has as many summaries as
-- there are requests from `from_index` on, at most `limit`, and each is the one that
-- get_request_by_id returns for its index.
pub get_requests_lem :
    (from_index limit : ℕ) (c : Contract)
    → from_index + limit < u64_mod
    → (ds : List DataRequestSummary) × (get_requests from_index limit c ≡ ok ds)
      × (length ds ≡ min limit (length c.data_requests - from_index))
      × ((k : ℕ) → k < length ds → get_elem? ds k ≡ get_request_by_id (from_index + k) c)
unfolding get_requests
get_requests_lem from_index limit c h =
    let n = min (from_index + limit) (length c.data_requests) - from_index in
    let (ds, page, (size, entries)) = collect_requests-IsPage n from_index c (ground arith) in
    (
      ds,
      rw (checked_add-of-lt u64_mod from_index limit h) page,
      ground arith,
      λ k l. entries k (omega (arith, size)),
    )
