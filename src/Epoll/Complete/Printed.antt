-- ===== src/Epoll/Complete/Printed.antt =====
-- `is_request_complete` on a message as a client prints it.
use epoll_http_server.Prelude.{
  ℕ, ◌≤◌, ◌≡◌, ◌≢◌, refl, ap, ◌∙◌, sym, true, false, ◌==◌, inl, inr, List, [], ◌∷◌, ◌++◌,
  append_assoc, some, arith, Bytes, length, length-append, All, All-append, Bool-cases,
}
use epoll_http_server.Prelude.Int.{pos}
use epoll_http_server.CString.{starts, strstr}
use epoll_http_server.CString.Scan.{Lacks, starts-append}
use epoll_http_server.Parser.RequestLine.{IsWord-Lacks}
use epoll_http_server.Parser.HeaderLine.{print_header}
use epoll_http_server.Parser.Headers.{Field, IsField, print_headers, print_header-Lacks_nul}
use epoll_http_server.Parser.Message.{
  Message, IsMessage, print, print_line, print_line-Lacks, followed, print_onto,
}
use epoll_http_server.Epoll.Complete.{blank_line, is_request_complete}
use epoll_http_server.Epoll.Complete.Ascii.{IsAscii, is_request_complete-ascii}

-- A literal that stands somewhere is found there or before.
strstr_somewhere :
    (x : ℕ) (n pre rest : Bytes)
    → Lacks 0 pre
    → (e : Bytes) × (strstr (pre ++ (x ∷ (n ++ rest))) (x ∷ n) ≡ some e)
      × (length (x ∷ (n ++ rest)) ≤ length e)
unfolding strstr
strstr_somewhere x n [] rest z =
    (x ∷ (n ++ rest), rw (starts-append (x ∷ n) rest, strstr), omega arith)
strstr_somewhere x n (c ∷ pre) rest z =
    let (e, found, far) = strstr_somewhere x n pre rest z.1 in
    let not_nul : (c == 0) ≡ false = ground (arith, z.0) in
    elim (Bool-cases (starts (x ∷ n) (c ∷ (pre ++ (x ∷ (n ++ rest)))))) [
      | inl here ↦ (
        c ∷ (pre ++ (x ∷ (n ++ rest))),
        rw (here, strstr),
        omega (arith, length-append pre (x ∷ (n ++ rest))),
      )
      | inr later ↦ (e, rw (later, not_nul, strstr) found, far)
    ]

-- The headers end with an empty line.
blank_line_stands :
    (pre : Bytes) (xs : List Field) (rest : Bytes)
    → Lacks 0 pre
    → All IsField xs
    → (b : Bytes) × (pre ++ (13 ∷ 10 ∷ print_headers xs rest) ≡ b ++ (blank_line ++ rest))
      × Lacks 0 b
blank_line_stands pre [] rest z are = (pre, refl, z)
blank_line_stands pre (x ∷ xs) rest z are =
    let text = print_header x.name x.value in
    let next : Bytes = pre ++ (13 ∷ 10 ∷ text) in
    let (b, e, no_nul) =
      blank_line_stands next xs rest
        (All-append (λ c. c ≢ 0) pre (13 ∷ 10 ∷ text) z
          (omega arith, (omega arith, print_header-Lacks_nul x are.0)))
        are.1 in
    (b, sym (append_assoc pre (13 ∷ 10 ∷ text) (13 ∷ 10 ∷ print_headers xs rest)) ∙ e, no_nul)

-- A message that has arrived whole, with more behind it in the buffer, is complete.
pub is_request_complete-printed :
    (m : Message) (behind : Bytes)
    → IsMessage m
    → IsAscii (print (followed m behind))
    → is_request_complete (print (followed m behind)) (length (print m)) ≡ some (true, some (pos 0))
is_request_complete-printed m behind is ascii =
    let buffer = print (followed m behind) in
    let (b, splits, no_nul) =
      blank_line_stands (print_line m) m.fields (m.body ++ behind)
        (print_line-Lacks 0 m (omega arith) (IsWord-Lacks m.method is.method_word).1
          (IsWord-Lacks m.uri is.uri_word).1 (IsWord-Lacks m.version is.version_word).1)
        is.are_fields in
    let (e, found, far) = strstr_somewhere 13 (10 ∷ 13 ∷ 10 ∷ []) b (m.body ++ behind) no_nul in
    is_request_complete-ascii buffer e (length (print m)) ascii
      (ap (λ (t : Bytes). strstr t blank_line) splits ∙ found)
      (omega (
        arith,
        ap length splits,
        length-append b (blank_line ++ (m.body ++ behind)),
        length-append m.body behind,
        ap length (print_onto m behind),
        length-append (print m) behind,
        far,
      ))
