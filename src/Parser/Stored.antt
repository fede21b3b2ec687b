-- ===== src/Parser/Stored.antt =====
-- What a request holds after the lines of the headers: the headers themselves, and the members
-- that cache some of them.
use mathlib.Core.Path.{ap₂}
use native.Mathlib.Numerals.{add-one}
use epoll_http_server.Prelude.{
  ℕ, zero, suc, ◌+◌, ◌-◌, ◌≤◌, ◌<◌, ◌≡◌, refl, sym, ap, ◌∙◌, Bool, true, false, List, [], ◌∷◌, ◌++◌,
  arith, Bytes, length, set, take, take_nil, subst, append-nil, append_assoc, All, lt→ltb,
  le→ltb_false, dec_lt, Bool-cases, inl, inr, codes, if◌then◌else◌,
}
use epoll_http_server.Prelude.Int.{ℤ}
use epoll_http_server.CString.{cstr, strncpy, atoi, case_eq, strcasecmp_zero}
use epoll_http_server.CString.Copy.{cstr-strncpy}
use epoll_http_server.CString.Number.{atoi-cstr}
use epoll_http_server.Parser.Cells.{LastIsNul, set_last, strncpy-LastIsNul}
use epoll_http_server.Parser.Sizes.{
  Fits, store_header-Fits, header_at-HeaderFits, cache_header_count,
}
use epoll_http_server.Parser.HeaderLine.{print_header, parse_header_line_printed}
use epoll_http_server.Parser.Headers.{Field, IsField, store_all}
use epoll_http_server.Parser.Cases.{cache_header_cases}
use epoll_http_server.Parser.{
  Header, Request, max_headers, parse_header_line, header_at, cache_header, store_header,
}

-- A header as it is stored: its strings cut to their arrays.
abbrev pub cut : Field → Field
cut x = record { name = take 63 x.name; value = take 255 x.value }

abbrev pub view : Header → Field
view h = record { name = cstr h.name; value = cstr h.value }

abbrev pub map_fields {ℓ} : {A : Type ℓ} → (A → Field) → List A → List Field
map_fields f [] = []
map_fields f (x ∷ xs) = f x ∷ map_fields f xs

-- The headers of a request, in order.
abbrev pub stored : Request → List Field
stored request = map_fields view (take request.header_count request.headers)

-- What the `Connection` headers of a list say in the end, from `b` on.
abbrev pub keep_alive_of : List Field → Bool → Bool
keep_alive_of [] b = b
keep_alive_of (x ∷ xs) b = keep_alive_of xs (
    if case_eq x.name (codes "Connection")
    then (if case_eq x.value (codes "keep-alive")
        then true
        else if case_eq x.value (codes "close")
        then false
        else b)
    else b)

-- The last `Content-Length` of a list, from `n` on.
abbrev pub content_length_of : List Field → ℤ → ℤ
content_length_of [] n = n
content_length_of (x ∷ xs) n =
    content_length_of xs (if case_eq x.name (codes "Content-Length") then atoi x.value else n)

-- The last `Host` of a list, from `s` on.
abbrev pub host_of : List Field → Bytes → Bytes
host_of [] s = s
host_of (x ∷ xs) s = host_of xs (if case_eq x.name (codes "Host") then take 255 x.value else s)

map_fields-take-set :
    (hs : List Header) (i : ℕ) (h : Header)
    → i < length hs
    → map_fields view (take (suc i) (set hs i h)) ≡ map_fields view (take i hs) ++ view h ∷ []
map_fields-take-set [] i h k = absurd (omega arith)
map_fields-take-set (x ∷ hs) zero h k = refl
map_fields-take-set (x ∷ hs) (suc i) h k =
    ap (◌∷◌ (view x)) (map_fields-take-set hs i h (omega arith))

cache_header_headers : (h : Header) (r : Request) → (cache_header h r).headers ≡ r.headers
cache_header_headers h r =
    cache_header_cases (λ q. q.headers ≡ r.headers) h r refl refl (λ b. refl) (λ n. refl)

case_eq_trans : (a b c : Bytes) → case_eq a b ≡ true → case_eq a c ≡ true → case_eq b c ≡ true
unfolding case_eq
case_eq_trans [] [] c h k = k
case_eq_trans [] (y ∷ b) c h k = cc
case_eq_trans (x ∷ a) [] c h k = cc
case_eq_trans (x ∷ a) (y ∷ b) [] h k = cc
case_eq_trans (x ∷ a) (y ∷ b) (z ∷ c) h k = ground (arith, case_eq_trans a b c)

-- A name is at most one of two names that differ in more than their case.
exclusive : (a b c : Bytes) → case_eq b c ≡ false → case_eq a b ≡ true → case_eq a c ≡ false
exclusive a b c ne h = ground (arith, case_eq_trans a b c)

host_not_connection : case_eq (codes "Host") (codes "Connection") ≡ false
unfolding case_eq
host_not_connection = refl

host_not_length : case_eq (codes "Host") (codes "Content-Length") ≡ false
unfolding case_eq
host_not_length = refl

connection_not_length : case_eq (codes "Connection") (codes "Content-Length") ≡ false
unfolding case_eq
connection_not_length = refl

cache_header-keep_alive :
    (h : Header) (r : Request)
    → (cache_header h r).keep_alive ≡ keep_alive_of (view h ∷ []) r.keep_alive
unfolding cache_header strcasecmp_zero cstr
cache_header-keep_alive h r =
    ground (arith, exclusive (cstr h.name) (codes "Host") (codes "Connection") host_not_connection)

cache_header-content_length :
    (h : Header) (r : Request)
    → (cache_header h r).content_length ≡ content_length_of (view h ∷ []) r.content_length
unfolding cache_header strcasecmp_zero cstr
cache_header-content_length h r = ground (
  arith,
  atoi-cstr h.value,
  exclusive (cstr h.name) (codes "Host") (codes "Content-Length") host_not_length,
  exclusive (cstr h.name) (codes "Connection") (codes "Content-Length") connection_not_length,
)

-- A string copied into an array whose last cell is NUL.
cstr-strncpy_ended :
    (n : ℕ) (dest src : Bytes) → LastIsNul n dest → cstr (strncpy dest src n) ≡ take n (cstr src)
cstr-strncpy_ended n dest src h =
    ap cstr (sym (set_last n (strncpy dest src n) (strncpy-LastIsNul n dest src n (omega arith) h)))
    ∙ cstr-strncpy dest src n (omega (arith, h.0))

host_untouched :
    (a b c d : Bool) (r : Request) (n : ℤ)
    → (if a
        then (if b
            then record r { keep_alive = true }
            else if c
            then record r { keep_alive = false }
            else r)
        else if d
        then record r { content_length = n }
        else r).host
      ≡ r.host
host_untouched true true c d r n = refl
host_untouched true false true d r n = refl
host_untouched true false false d r n = refl
host_untouched false b c true r n = refl
host_untouched false b c false r n = refl

cache_header-host :
    (h : Header) (r : Request)
    → LastIsNul 255 r.host
    → cstr (cache_header h r).host ≡ host_of (view h ∷ []) (cstr r.host)
unfolding cache_header strcasecmp_zero
cache_header-host h r ended = elim (Bool-cases (case_eq (cstr h.name) (codes "Host"))) [
  | inl is_host ↦ rw is_host (cstr-strncpy_ended 255 r.host h.value ended)
  | inr other ↦ rw other (ap cstr (host_untouched _ _ _ _ r _))
]

-- One printed line, while there is room.
store_header_room :
    (x : Field) (r : Request)
    → IsField x
    → Fits r
    → r.header_count < max_headers
    → let q = store_header (print_header x.name x.value) r in
      (stored q ≡ stored r ++ cut x ∷ [])
      × (q.header_count ≡ r.header_count + 1)
      × (q.keep_alive ≡ keep_alive_of (cut x ∷ []) r.keep_alive)
      × (q.content_length ≡ content_length_of (cut x ∷ []) r.content_length)
      × (cstr q.host ≡ host_of (cut x ∷ []) (cstr r.host))
unfolding store_header
store_header_room x r f g room =
    let old = header_at r.headers r.header_count in
    let fits = header_at-HeaderFits r.headers r.header_count g.headers_fit in
    let h = (parse_header_line (print_header x.name x.value) old).0 in
    let q = record r { headers = set r.headers r.header_count h } in
    let (good, is) = parse_header_line_printed x.name x.value old fits f.is_name f.is_value in
    let seen : view h ≡ cut x = ground (arith, is.0, is.1) in
    let grown = map_fields-take-set r.headers r.header_count h (omega arith) in
    rw (lt→ltb _ _ room, good, store_header)
      (
        ap₂ (λ (n : ℕ) (hs : List Header). map_fields view (take n hs))
              (ap (λ (n : ℕ). n + 1) (cache_header_count h q) ∙ add-one r.header_count)
              (cache_header_headers h q)
            ∙ grown
            ∙ ap (λ (v : Field). stored r ++ v ∷ []) seen,
        ap (λ (n : ℕ). n + 1) (cache_header_count h q),
        cache_header-keep_alive h q ∙ ap (λ (v : Field). keep_alive_of (v ∷ []) r.keep_alive) seen,
        cache_header-content_length h q
            ∙ ap (λ (v : Field). content_length_of (v ∷ []) r.content_length) seen,
        cache_header-host h q g.host_ends ∙ ap (λ (v : Field). host_of (v ∷ []) (cstr r.host)) seen,
      )

-- With the array full a line changes nothing.
store_header_full :
    (text : Bytes) (r : Request) → max_headers ≤ r.header_count → store_header text r ≡ r
unfolding store_header
store_header_full text r full = rw (le→ltb_false r.header_count max_headers full)

-- `q` is `r` after the headers `xs`, of which it keeps those that there is room for.
pub record Keeps (xs : List Field) (r q : Request) : Type 0 where
  pub headers : stored q ≡ stored r ++ map_fields cut (take (max_headers - r.header_count) xs)
  pub alive :
      q.keep_alive
      ≡ keep_alive_of (map_fields cut (take (max_headers - r.header_count) xs)) r.keep_alive
  pub size :
      q.content_length
      ≡ content_length_of (map_fields cut (take (max_headers - r.header_count) xs)) r.content_length
  pub host :
      cstr q.host ≡ host_of (map_fields cut (take (max_headers - r.header_count) xs)) (cstr r.host)

-- One after the other, the lines are kept in order while there is room, and the cached members are
-- those of the last header of their name that is kept.
pub store_all-Keeps :
    (xs : List Field) (r : Request) → All IsField xs → Fits r → Keeps xs r (store_all xs r)
store_all-Keeps [] r h g = record {
  headers = rw (take_nil (max_headers - r.header_count), append-nil);
  alive = rw (take_nil (max_headers - r.header_count));
  size = rw (take_nil (max_headers - r.header_count));
  host = rw (take_nil (max_headers - r.header_count));
}
store_all-Keeps (x ∷ xs) r h g = elim (dec_lt r.header_count max_headers) [
  | yes room ↦
      let q = store_header (print_header x.name x.value) r in
      let (headers, count, alive, size, host) = store_header_room x r h.0 g room in
      let later = store_all-Keeps xs q h.1 (store_header-Fits (print_header x.name x.value) r g) in
      let left : max_headers - r.header_count ≡ suc (max_headers - q.header_count) = omega arith in
      let kept = map_fields cut (take (max_headers - q.header_count) xs) in
      record {
        headers = rw left (
            later.headers
            ∙ ap (λ (hs : List Field). hs ++ kept) headers
            ∙ append_assoc (stored r) (cut x ∷ []) kept);
        alive = rw left (later.alive ∙ ap (keep_alive_of kept) alive);
        size = rw left (later.size ∙ ap (content_length_of kept) size);
        host = rw left (later.host ∙ ap (host_of kept) host);
      }
  | no full ↦
      let none_left : max_headers - r.header_count ≡ 0 = omega arith in
      let text = print_header x.name x.value in
      let same = store_header_full text r (omega arith) in
      let later = store_all-Keeps xs r h.1 g in
      subst (λ q. Keeps (x ∷ xs) r (store_all xs q)) (sym same)
        (record {
          headers = rw none_left (rw none_left at later.headers);
          alive = rw none_left (rw none_left at later.alive);
          size = rw none_left (rw none_left at later.size);
          host = rw none_left (rw none_left at later.host);
        })
]
