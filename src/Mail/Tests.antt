-- ===== src/Mail/Tests.antt =====
-- Runs of the mailer, and an example of the result about it.
use go_utility.Base.{
  ℕ, zero, suc, ◌≡◌, refl, false, [], ◌∷◌, ◌++◌, All, replicate, length, map, arith,
}
use go_utility.Base.Text.{codes, take}
use go_utility.Mail.{Attachment, Message, base64, attachment_lines, full_message, crlf}
use go_utility.Mail.Lines.{flat, IsLine, IsInner, IsByte, attachment_lines-flat}

-- The three paddings, as in RFC 4648.
encoded :
    map base64 (codes "foo" ∷ codes "foob" ∷ codes "fooba" ∷ [])
    ≡ codes "Zm9v" ∷ codes "Zm9vYg==" ∷ codes "Zm9vYmE=" ∷ []
unfolding base64
encoded = refl

abbrev picture : Attachment
picture = record { filename = codes "a.png"; content = replicate 60 0 }

two_lines : map length (attachment_lines picture) ≡ 76 ∷ 4 ∷ []
unfolding attachment_lines
two_lines = refl

-- A subject with the end of a line in it adds a header.
abbrev sneaky : Message
sneaky = record {
  to = codes "a@b" ∷ [];
  subject = codes "hi" ++ crlf ++ codes "Bcc: c@d";
  body = [];
  is_html = false;
  attachments = [];
}

header_added :
    take 39 (full_message (λ name. []) (codes "e@f") sneaky)
    ≡ codes "From: e@f"
      ++ crlf
      ++ codes "To: a@b"
      ++ crlf
      ++ codes "Subject: hi"
      ++ crlf
      ++ codes "Bcc: c"
unfolding full_message
header_added = refl

zeros : (n : ℕ) → All IsByte (replicate n 0)
zeros zero = tt
zeros (suc n) = (omega arith, zeros n)

attachment_lines-flat_example :
    (flat (attachment_lines picture) ≡ base64 picture.content)
    × All IsLine (attachment_lines picture)
    × All (All IsInner) (attachment_lines picture)
attachment_lines-flat_example = attachment_lines-flat picture (zeros 60)
