-- ===== src/Parser/Body.antt =====
-- The body of a message that stands in a buffer.

use epoll_http_server.Prelude.{
  take-append, ℕ, ◌≡◌, refl, sym, ap, ◌∙◌, Bool, true, inl, inr, [], ◌∷◌, ◌++◌, Option, none, some,
  arith, Bytes, length, take, take_all, Bool-cases, ◌==◌, not, ◌&&◌, if◌then◌else◌, length-append,
}
use epoll_http_server.Prelude.Int.{ℤ, pos, negsuc, pos_part, ltb_ℤ, sub_ℕ}
use epoll_http_server.CString.{deref, ptr_diff}
use epoll_http_server.Parser.RequestLine.{take-append_le}
use epoll_http_server.Parser.{Request, body_room, parse_body}

-- The body that a request with the given `Content-Length` is left with.
abbrev pub body_of : ℤ → Bytes → Option Bytes
body_of n body =
    if ltb_ℤ (pos 0) n && not (deref body == 0) then some (take (pos_part n) body) else none

pub left_of :
    (before body behind raw_data : Bytes) (len : ℕ)
    → raw_data ≡ before ++ (body ++ behind)
    → len ≡ length (before ++ body)
    → sub_ℕ len (ptr_diff (body ++ behind) raw_data) ≡ pos (length body)
left_of before body behind raw_data len e l =
    ground (arith, length-append before body, length-append before (body ++ behind), ap length e)

pub take_capped :
    (n : ℤ) (body behind : Bytes)
    → take
        (pos_part (if ltb_ℤ n (pos (length body)) then n else pos (length body)))
        (body ++ behind)
      ≡ take (pos_part n) body
take_capped (pos n) body behind = elim (Bool-cases (ltb_ℤ (pos n) (pos (length body)))) [
  | inl more ↦ rw more (take-append_le n body behind (ground arith))
  | inr all ↦
      rw all (take-append (length body) body behind refl ∙ sym (take_all n body (ground arith)))
]
take_capped (negsuc n) body behind = ground arith

-- What stands behind the message is not read as its body.
pub deref-append : (body behind : Bytes) → deref behind ≡ 0 → deref (body ++ behind) ≡ deref body
deref-append [] behind e = e
deref-append (c ∷ body) behind e = refl

pub parse_body_whole :
    (alloc : ℕ → Bool) (raw_data : Bytes) (len : ℕ) (before body behind : Bytes) (r : Request)
    → ((n : ℕ) → alloc n ≡ true)
    → raw_data ≡ before ++ (body ++ behind)
    → len ≡ length (before ++ body)
    → deref behind ≡ 0
    → r.body ≡ none
    → (parse_body alloc raw_data len (body ++ behind) r).body ≡ body_of r.content_length body
unfolding parse_body
parse_body_whole alloc raw_data len before body behind r given raw_is len_is ended no_body =
    rw (parse_body, deref-append body behind ended)
      (elim (Bool-cases (ltb_ℤ (pos 0) r.content_length && not (deref body == 0))) [
        | inr absent ↦ rw absent no_body
        | inl present ↦
            rw (present, given (body_room r.content_length))
              (rw (left_of before body behind raw_data len raw_is len_is)
                (ap some (take_capped r.content_length body behind)))
      ])
