-- ===== src/FileServer/Request/Links.antt =====
-- The links of a listing, against the requests that they lead to.
use network_programming_lab.Prelude.{
  ℕ, ℕ_discrete, ◌+◌, ◌-◌, ◌<◌, false, [], ◌∷◌, ◌++◌, ◌≡◌, ◌≢◌, refl, ap, ◌∙◌, arith, some, All,
  Bytes, codes, length, get_or, take-append_of_eq, length-append, append_assoc, append-nil, leb,
  ◌==◌, if◌then◌else◌,
}
use network_programming_lab.Strcmp.{strcmp}
use network_programming_lab.Listing.{Dirent, dt_dir}
use network_programming_lab.Scanf.{
  is_space, IsWord, skip_spaces-two_words, word-two_words, second-two_words,
}
use network_programming_lab.Url.{url_decode}
use network_programming_lab.FileServer.Text.{contains}
use network_programming_lab.FileServer.Reader.{HasNoNul, c_string-eq}
use network_programming_lab.FileServer.Output.{concat, target}
use network_programming_lab.FileServer.Upload.{upload_path}
use network_programming_lab.FileServer.Request.{
  content_length, list_directory, download, receive_upload, get_action, choose_action,
  request_action,
}

-- A byte that a link carries as it is.
abbrev pub IsLinkByte : ℕ → Type 0
IsLinkByte c = (is_space c ≡ false) × (c ≢ 0) × (c ≢ b'%') × (c ≢ b'+')

url_decode-eq : (text : Bytes) → All IsLinkByte text → url_decode text ≡ text
unfolding url_decode
url_decode-eq [] h = refl
url_decode-eq (c ∷ []) h = ground (arith, h.0)
url_decode-eq (c ∷ a ∷ []) h = ground (arith, h.0, url_decode-eq (a ∷ []) h.1)
url_decode-eq (c ∷ a ∷ b ∷ src) h = ground (arith, h.0, url_decode-eq (a ∷ b ∷ src) h.1)

IsLinkByte-HasNoNul : (text : Bytes) → All IsLinkByte text → HasNoNul text
IsLinkByte-HasNoNul [] h = tt
IsLinkByte-HasNoNul (c ∷ text) h = (h.0.1, IsLinkByte-HasNoNul text h.1)

IsLinkByte-IsWord : (text : Bytes) → 0 < length text → All IsLinkByte text → IsWord text
IsLinkByte-IsWord text some_byte h = record { some_byte = some_byte; bytes = go text h }
  where
    go : (text : Bytes) → All IsLinkByte text → All (λ c. (is_space c ≡ false) × (c ≢ 0)) text
    go [] h = tt
    go (c ∷ text) h = ((h.0.0, h.0.1), go text h.1)

-- A request of a method and a path that is written as it is.
pub request_action-two_words :
    (method path rest : Bytes) (n : ℕ)
    → IsWord method
    → length method < 8
    → 0 < length path
    → length path < 1024
    → All IsLinkByte path
    → content_length (method ++ b' ' ∷ (path ++ b' ' ∷ rest)) ≡ some n
    → request_action (method ++ b' ' ∷ (path ++ b' ' ∷ rest)) ≡ choose_action method path (some n)
unfolding request_action
request_action-two_words method path rest n is_word few some_byte short h fits =
    let path_word = IsLinkByte-IsWord path some_byte h in
    rw
      (
        skip_spaces-two_words method path rest is_word path_word,
        word-two_words method path rest is_word path_word,
        second-two_words method path rest is_word path_word,
        url_decode-eq path h,
        c_string-eq path (IsLinkByte-HasNoNul path h),
        fits,
        few_bytes,
        is_short,
      )
      refl
  where
    few_bytes : leb 8 (length method) ≡ false
    few_bytes = ground arith

    is_short : leb 1024 (length path) ≡ false
    is_short = ground arith

-- The request that a link leads to.
request_action-get :
    (href rest : Bytes) (n : ℕ)
    → 0 < length href
    → length href < 1024
    → All IsLinkByte href
    → content_length (codes "GET" ++ b' ' ∷ (href ++ b' ' ∷ rest)) ≡ some n
    → request_action (codes "GET" ++ b' ' ∷ (href ++ b' ' ∷ rest)) ≡ get_action href
request_action-get href rest n some_byte short h fits =
    request_action-two_words (codes "GET") href rest n get-IsWord (omega arith) some_byte short h
      fits
    ∙ unfold strcmp in refl
  where
    get-IsWord : IsWord (codes "GET")
    get-IsWord = record { some_byte = omega arith; bytes = ground arith }

-- The request of the form in a listing.
pub request_action-post :
    (path rest : Bytes) (n : ℕ)
    → 0 < length path
    → length path < 1024
    → All IsLinkByte path
    → content_length (codes "POST" ++ b' ' ∷ (path ++ b' ' ∷ rest)) ≡ some n
    → request_action (codes "POST" ++ b' ' ∷ (path ++ b' ' ∷ rest)) ≡ receive_upload path n
request_action-post path rest n some_byte short h fits =
    request_action-two_words (codes "POST") path rest n post-IsWord (omega arith) some_byte short h
      fits
    ∙ unfold strcmp in refl
  where
    post-IsWord : IsWord (codes "POST")
    post-IsWord = record { some_byte = omega arith; bytes = ground arith }

target-directory :
    (path : Bytes) (e : Dirent)
    → e.d_type ≡ dt_dir
    → concat (target path e) ≡ upload_path path e.d_name
unfolding target upload_path
target-directory path e h = ground (arith, append-nil e.d_name)

target-file :
    (path : Bytes) (e : Dirent)
    → e.d_type ≢ dt_dir
    → concat (target path e) ≡ upload_path path e.d_name ++ codes "?"
unfolding target upload_path
target-file path e h =
    ground (
      arith,
      append_assoc path e.d_name (codes "?"),
      append_assoc path (b'/' ∷ e.d_name) (codes "?"),
    )

get_or-append : (text : Bytes) (c : ℕ) → get_or (text ++ c ∷ []) (length text) 0 ≡ c
get_or-append [] c = refl
get_or-append (x ∷ text) c = get_or-append text c

get_action-directory :
    (path : Bytes)
    → 0 < length path
    → contains path (codes "favicon.ico") ≡ false
    → get_or path (length path - 1) 0 ≢ b'?'
    → get_action path ≡ list_directory path
unfolding get_action
get_action-directory path some_byte no_icon h = rw no_icon (ground arith)

get_action-file :
    (path : Bytes)
    → contains (path ++ codes "?") (codes "favicon.ico") ≡ false
    → get_action (path ++ codes "?") ≡ download path
unfolding get_action
get_action-file path no_icon =
    rw
      (
        no_icon,
        length-append path (codes "?"),
        drop_one,
        get_or-append path b'?',
        take-append_of_eq (length path) path (codes "?") refl,
      )
      (ground arith)
  where
    drop_one : length path + 1 - 1 ≡ length path
    drop_one = omega arith

length-upload_path : (path name : Bytes) → 0 < length (upload_path path name)
unfolding upload_path
length-upload_path [] name = ground arith
length-upload_path (c ∷ path) name = ground arith

-- For an entry whose link has fewer than 1024 bytes, no white space, NUL, `%` or `+` and no
-- `favicon.ico` in it, and, if it is a directory, does not end in a question mark: the request
-- that follows the link, with a `Content-Length` that fits an `int` if it has one, asks for the
-- listing of the path and the name if the entry is a directory, and for the download of it if not.
pub follow_link :
    (path : Bytes) (e : Dirent) (rest : Bytes) (n : ℕ)
    → let href = concat (target path e) in
      let named = upload_path path e.d_name in
      length href < 1024
      → All IsLinkByte href
      → contains href (codes "favicon.ico") ≡ false
      → (e.d_type ≡ dt_dir → get_or named (length named - 1) 0 ≢ b'?')
      → content_length (codes "GET" ++ b' ' ∷ (href ++ b' ' ∷ rest)) ≡ some n
      → request_action (codes "GET" ++ b' ' ∷ (href ++ b' ' ∷ rest))
        ≡ (if e.d_type == dt_dir then list_directory named else download named)
follow_link path e rest n short h no_icon end_ fits = elim (ℕ_discrete e.d_type dt_dir) [
  | yes dir ↦
      let same = target-directory path e dir in
      asked (rw same some_byte)
      ∙ ap get_action same
      ∙ get_action-directory (upload_path path e.d_name) some_byte (rw (← same) no_icon) (end_ dir)
      ∙ ground arith
  | no file ↦
      let same = target-file path e file in
      asked (rw same (omega (arith, length-append (upload_path path e.d_name) (codes "?"))))
      ∙ ap get_action same
      ∙ get_action-file (upload_path path e.d_name) (rw (← same) no_icon)
      ∙ ground arith
]
  where
    some_byte : 0 < length (upload_path path e.d_name)
    some_byte = length-upload_path path e.d_name

    asked :
        0 < length (concat (target path e))
        → request_action (codes "GET" ++ b' ' ∷ (concat (target path e) ++ b' ' ∷ rest))
          ≡ get_action (concat (target path e))
    asked some_byte = request_action-get (concat (target path e)) rest n some_byte short h fits
