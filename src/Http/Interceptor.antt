-- ===== src/Http/Interceptor.antt =====
-- src/common/interceptors/response.interceptor.ts: the envelope of a successful response.
use nest_fastify_boilerplate.Prelude.{
  ℕ, ◌+◌, ◌-◌, ◌*◌, ◌/◌, ◌≤◌, ◌<◌, String, ◌≡◌, ◌↔◌, Bool, true, Option, none, some, List, ltb,
  or_else, if◌then◌else◌, arith, ltb→lt, lt→ltb,
}
use nest_fastify_boilerplate.Http.Status.{PaginationMeta, ResponseMeta, SuccessResponse, Request}
use nest_fastify_boilerplate.Http.Filter.{header_of}

-- What a handler returns: an object, with the properties that the interceptor looks at (`none` where
-- the property is missing or no list, or no number), or another value.
pub data Payload (T : Type 0) : Type 0 where
  object : T → Option (List T) → Option ℕ → Option ℕ → Option ℕ → Payload T
  value : T → Payload T

-- The content of the envelope: the value as it is, or the items of a page.
pub data Content (T : Type 0) : Type 0 where
  whole : T → Content T
  items : List T → Content T

-- `Math.ceil(total / limit)` for a positive `limit`
unfoldable pub total_pages_of : ℕ → ℕ → ℕ
total_pages_of limit total = if ltb 0 limit then (total + limit - 1) / limit else 0

unfoldable pub build_pagination : ℕ → ℕ → ℕ → PaginationMeta
unfolding total_pages_of
build_pagination page limit total = record {
  page = page;
  limit = limit;
  total = total;
  total_pages = total_pages_of limit total;
  has_next = ltb page (total_pages_of limit total);
  has_prev = ltb 1 page;
}

-- `isPaginated`, with what it finds.
unfoldable pub paginated : {T : Type 0} → Payload T → Option (List T × PaginationMeta)
unfolding build_pagination
paginated (object _ (some xs) (some page) (some limit) (some total)) =
    some (xs, build_pagination page limit total)
paginated _ = none

abbrev pub whole_of : {T : Type 0} → Payload T → T
whole_of (object v _ _ _ _) = v
whole_of (value v) = v

-- `none` outside of HTTP, where the payload goes on as it is.
unfoldable pub intercept :
    {T : Type 0}
    → Bool
    → Request
    → Bool
    → String
    → Payload T
    → Option (Option String × SuccessResponse (Content T))
unfolding paginated
intercept is_http req has_header now payload =
    let meta : Option PaginationMeta → ResponseMeta = λ p. record {
      timestamp = now;
      path = or_else req.url "";
      request_id = or_else req.id "";
      pagination = p;
    } in
    if is_http
    then some (
      header_of (or_else req.id "") has_header,
      elim (paginated payload) [
        | some (xs, p) ↦ record { content = items xs; meta = meta (some p) }
        | none ↦ record { content = whole (whole_of payload); meta = meta none }
      ],
    )
    else none

module _ (limit total : ℕ) (h : 0 < limit) where
  total_pages_bounds :
      (total ≤ total_pages_of limit total * limit)
      × (total_pages_of limit total * limit < total + limit)
  unfolding total_pages_of
  total_pages_bounds = (grind arith, grind arith)

  lt-total_pages : (page : ℕ) → page < total_pages_of limit total → page * limit < total
  lt-total_pages page less =
      let b = total_pages_bounds in
      let m : (page + 1) * limit ≤ total_pages_of limit total * limit = grind arith in omega arith

  total_pages-le : (page : ℕ) → total_pages_of limit total ≤ page → total ≤ page * limit
  total_pages-le page le =
      let b = total_pages_bounds in
      let m : total_pages_of limit total * limit ≤ page * limit = grind arith in omega arith

-- For a positive limit, the pages are as many as it takes: they hold all the items, and one page less
-- would not; there is a next page exactly if items are left behind this one, and a previous one
-- exactly behind the first.
pub build_pagination_lem :
    (page limit total : ℕ)
    → 0 < limit
    → (total ≤ (build_pagination page limit total).total_pages * limit)
      × ((build_pagination page limit total).total_pages * limit < total + limit)
      × (((build_pagination page limit total).has_next ≡ true) ↔ (page * limit < total))
      × (((build_pagination page limit total).has_prev ≡ true) ↔ (1 < page))
unfolding build_pagination
build_pagination_lem page limit total h =
    let (enough, tight) = total_pages_bounds limit total h in
    (
      enough,
      tight,
      (
        λ e. lt-total_pages limit total h page (ltb→lt _ _ e),
        λ l. ground (arith, total_pages-le limit total h page),
      ),
      (λ e. ltb→lt 1 page e, λ l. lt→ltb 1 page l),
    )
