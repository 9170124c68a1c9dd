-- ===== src/TestLog/Tail/Whole.antt =====
-- `text` of class `Loader`: the whole range of a log.
use xrpl_hive.Base.{
  ◌+◌, ◌-◌, ◌≤◌, ◌<◌, ◌≡◌, refl, ap, ◌∙◌, true, List, [], ◌∷◌, Bytes, length, take, arith, pos,
  All-append_split, concat, sub_ℕ, length-drop,
}
use xrpl_hive.TestLog.Decode.{TextDecoder, Ascii}
use xrpl_hive.TestLog.Loader.{Server, Loader, done, ◌>>=◌, fetch_range}
use xrpl_hive.TestLog.Loader.Fetch.{Serves, region, fetch_range-served}
use xrpl_hive.TestLog.Tail.{decode_chunks, text}

decode_chunks-concat :
    (td : TextDecoder) (s : td.State) (chunks : List Bytes)
    → td.Idle s
    → Ascii (concat chunks)
    → decode_chunks td s chunks ≡ concat chunks
unfolding decode_chunks
decode_chunks-concat td s [] h a = refl
decode_chunks-concat td s (chunk ∷ chunks) h a =
    let (first, others) = All-append_split (λ b. b < 128) chunk (concat chunks) a in
    rw
      (
        td.decode_ascii s chunk true h first,
        decode_chunks-concat td (td.decode s chunk true).0 chunks
            (td.decode-Idle s chunk true h first) others,
      )
      refl

-- On a range that is not empty, of a file in ASCII from a server that answers range requests, `text`
-- gives the bytes of the range, in whatever chunks they come.
pub text-region :
    (server : Server) (td : TextDecoder) (chunked : Bytes → List Bytes) (l : Loader) (file : Bytes)
    → Serves server l.log_file_name file
    → Ascii (take l.length (region l file))
    → l.offsets.begin + l.length ≤ length file
    → 0 < l.length
    → ((body : Bytes) → concat (chunked body) ≡ body)
    → text server td chunked l ≡ done (take l.length (region l file))
unfolding text
text-region server td chunked l file served ascii size some_bytes parts =
    let body = take l.length (region l file) in
    let last : sub_ℕ l.length 1 ≡ pos (l.length - 1) = ground arith in
    let n : l.length - 1 + 1 - 0 ≡ l.length = omega arith in
    let fetched : fetch_range server l (pos 0) (sub_ℕ l.length 1) ≡ done body =
      ap (fetch_range server l (pos 0)) last
      ∙ fetch_range-served server td l file served size 0 (l.length - 1) (omega arith)
          (omega (arith, length-drop l.offsets.begin file))
      ∙ ap (λ k. done (take k (region l file))) n in
    let same_body = parts body in
    ap (λ o. o >>= λ bytes. done (decode_chunks td td.fresh (chunked bytes))) fetched
    ∙ ap done (
        decode_chunks-concat td td.fresh (chunked body) td.fresh-Idle (rw same_body ascii)
        ∙ same_body)
