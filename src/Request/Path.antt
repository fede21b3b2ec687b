-- ===== src/Request/Path.antt =====
-- `build_file_path`: a path that it returns goes down from the root of the site.
use epoll_http_server.Prelude.{
  ◌≡◌, ◌≢◌, ◌⊎◌, refl, false, ◌||◌, inl, inr, [], ◌∷◌, ◌++◌, none, some, arith, Bytes, codes, take,
  replicate, All-append, ◌==◌, Bool-cases, Option-cases,
}
use epoll_http_server.CString.{deref, cstr, starts, strstr, strcmp_zero}
use epoll_http_server.CString.Copy.{cstr-snprintf}
use epoll_http_server.CString.Scan.{Lacks, cstr-Lacks}
use epoll_http_server.Request.{path_size, relative, tail_of, build_file_path}

-- No two dots stand in a row.
abbrev pub NoDots : Bytes → Type 0
NoDots s = strstr s (codes "..") ≡ none

starts-cstr : (n s : Bytes) → starts n s ≡ false → starts n (cstr s) ≡ false
unfolding starts cstr
starts-cstr [] s h = cc
starts-cstr (x ∷ n) [] h = refl
starts-cstr (x ∷ n) (c ∷ s) h = ground (arith, starts-cstr n s)

NoDots-cstr : (s : Bytes) → NoDots s → NoDots (cstr s)
unfolding strstr cstr starts
NoDots-cstr [] h = h
NoDots-cstr (c ∷ s) h = ground (arith, NoDots-cstr s, starts-cstr (b'.' ∷ []) s)

NoDots-relative : (uri : Bytes) → NoDots uri → NoDots (relative uri)
unfolding strstr
NoDots-relative [] h = h
NoDots-relative (c ∷ s) h = ground arith

NoDots-slash : (s : Bytes) → NoDots s → NoDots (b'/' ∷ s)
unfolding strstr starts
NoDots-slash s h = ground arith

-- What stands behind the root: from a slash on, with no dots in a row and no NUL.
pub record GoesDown (rest : Bytes) : Type 0 where
  pub from_slash : deref rest ≡ b'/'
  pub no_dots : NoDots rest
  pub no_nul : Lacks 0 rest

tail_of-GoesDown : (rel_path : Bytes) → NoDots rel_path → GoesDown (tail_of rel_path)
unfolding strstr starts
tail_of-GoesDown rel_path h =
    elim (Bool-cases (deref rel_path == 0 || strcmp_zero rel_path (codes "/"))) [
      | inl root ↦ rw root (record { from_slash = refl; no_dots = refl; no_nul = omega arith })
      | inr below ↦ rw below (record {
        from_slash = refl;
        no_dots = NoDots-slash (cstr rel_path) (NoDots-cstr rel_path h);
        no_nul = (omega arith, cstr-Lacks rel_path);
      })
    ]

-- A URI is refused exactly if it holds two dots in a row. For every other the path is the root of
-- the site with the URI behind it, or its index, cut to the array; and what stands behind the root
-- starts with a slash and never goes up.
pub build_file_path_safe :
    (web_root uri : Bytes)
    → ((build_file_path web_root uri (replicate path_size 0) path_size ≡ none)
        × (strstr uri (codes "..") ≢ none))
      ⊎ ((path : Bytes) × (build_file_path web_root uri (replicate path_size 0) path_size
            ≡ some path)
          × NoDots uri
          × (cstr path ≡ take 1023 (cstr web_root ++ tail_of (relative uri)))
          × GoesDown (tail_of (relative uri)))
unfolding build_file_path
build_file_path_safe web_root uri = elim (Option-cases (strstr uri (codes ".."))) [
  | inr (dots, e) ↦ inl (rw (e, build_file_path), λ h. cc)
  | inl clean ↦
      let rest = tail_of (relative uri) in
      let down = tail_of-GoesDown (relative uri) (NoDots-relative uri clean) in
      inr (
        _,
        rw (clean, build_file_path),
        clean,
        cstr-snprintf (replicate path_size 0) 1023 (cstr web_root ++ rest) (omega arith)
            (All-append (λ c. c ≢ 0) (cstr web_root) rest (cstr-Lacks web_root) down.no_nul),
        down,
      )
]
