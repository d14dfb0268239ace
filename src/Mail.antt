-- ===== src/Mail.antt =====
-- v2/emailw/email.go: the text of a message with attachments, as bytes.
pub mod Lines
mod Tests
use go_utility.Base.{
  ℕ, zero, suc, ◌+◌, ◌-◌, ◌*◌, ◌/◌, ◌%◌, Bool, true, false, String, Option, none, some, List, [],
  ◌∷◌, ◌++◌, length, ltb, if◌then◌else◌,
}
use go_utility.Base.Text.{codes, take, drop}

pub record Attachment : Type 0 where
  pub filename : List ℕ
  pub content : List ℕ

pub record Message : Type 0 where
  pub to : List (List ℕ)
  pub subject : List ℕ
  pub body : List ℕ
  pub is_html : Bool
  pub attachments : List Attachment

-- `base64.StdEncoding.EncodeToString`
unfoldable pub base64_digit : ℕ → ℕ
base64_digit n =
    if ltb n 26
    then 65 + n
    else (if ltb n 52 then 71 + n else (if ltb n 62 then n - 4 else (if ltb n 63 then 43 else 47)))

unfoldable pub base64 : List ℕ → List ℕ
unfolding base64_digit
base64 [] = []
base64 (a ∷ []) = base64_digit (a / 4) ∷ base64_digit (a % 4 * 16) ∷ 61 ∷ 61 ∷ []
base64 (a ∷ b ∷ []) =
    base64_digit (a / 4) ∷ base64_digit (a % 4 * 16 + b / 16) ∷ base64_digit (b % 16 * 4) ∷ 61 ∷ []
base64 (a ∷ b ∷ c ∷ rest) =
    base64_digit (a / 4)
    ∷ base64_digit (a % 4 * 16 + b / 16)
    ∷ base64_digit (b % 16 * 4 + c / 64)
    ∷ base64_digit (c % 64)
    ∷ base64 rest

-- `encoded[i:end]`, with the end that the loop computes.
abbrev pub line_at : ℕ → List ℕ → List ℕ
line_at i encoded =
    let end = if ltb (length encoded) (i + 76) then length encoded else i + 76 in
    take (end - i) (drop i encoded)

-- The loop that splits the encoded text, from an index on, with fuel.
unfoldable pub lines_from : ℕ → ℕ → List ℕ → List (List ℕ)
lines_from zero i encoded = []
lines_from (suc f) i encoded =
    let rest = lines_from f (i + 76) encoded in
    if ltb i (length encoded) then line_at i encoded ∷ rest else []

-- Each round takes at least one byte, so that the length is fuel enough.
unfoldable pub attachment_lines : Attachment → List (List ℕ)
unfolding base64 lines_from
attachment_lines a = lines_from (length (base64 a.content)) 0 (base64 a.content)

abbrev pub crlf : List ℕ
crlf = 13 ∷ 10 ∷ []

abbrev pub boundary : List ℕ
boundary = codes "boundary-1234567890"

abbrev pub with_crlf : List (List ℕ) → List ℕ
with_crlf [] = []
with_crlf (l ∷ ls) = l ++ crlf ++ with_crlf ls

-- `strings.Join` with commas.
abbrev pub joined : List (List ℕ) → List ℕ
joined [] = []
joined (a ∷ []) = a
joined (a ∷ rest) = a ++ codes "," ++ joined rest

-- The MIME type of a file name by its extension is an argument, empty where none is known.
abbrev pub or_octet_stream : List ℕ → List ℕ
or_octet_stream [] = codes "application/octet-stream"
or_octet_stream (c ∷ known) = c ∷ known

unfoldable pub attachment_text : (List ℕ → List ℕ) → Attachment → List ℕ
unfolding attachment_lines
attachment_text type_of a =
    codes "--"
    ++ boundary
    ++ crlf
    ++ codes "Content-Type: "
    ++ or_octet_stream (type_of a.filename)
    ++ crlf
    ++ codes "Content-Transfer-Encoding: base64"
    ++ crlf
    ++ codes "Content-Disposition: attachment; filename=\""
    ++ a.filename
    ++ codes "\""
    ++ crlf
    ++ crlf
    ++ with_crlf (attachment_lines a)

unfoldable pub attachments_text : (List ℕ → List ℕ) → List Attachment → List ℕ
unfolding attachment_text
attachments_text type_of [] = []
attachments_text type_of (a ∷ rest) = attachment_text type_of a ++ attachments_text type_of rest

-- The bytes that `Send` gives to `smtp.SendMail`.
unfoldable pub full_message : (List ℕ → List ℕ) → List ℕ → Message → List ℕ
unfolding attachments_text
full_message type_of sender m =
    codes "From: "
    ++ sender
    ++ crlf
    ++ codes "To: "
    ++ joined m.to
    ++ crlf
    ++ codes "Subject: "
    ++ m.subject
    ++ crlf
    ++ codes "MIME-Version: 1.0"
    ++ crlf
    ++ codes "Content-Type: multipart/mixed; boundary="
    ++ boundary
    ++ crlf
    ++ crlf
    ++ codes "--"
    ++ boundary
    ++ crlf
    ++ codes "Content-Type: "
    ++ codes (if m.is_html then "text/html" else "text/plain")
    ++ codes "; charset=\"utf-8\""
    ++ crlf
    ++ crlf
    ++ m.body
    ++ crlf
    ++ attachments_text type_of m.attachments
    ++ codes "--"
    ++ boundary
    ++ codes "--"
