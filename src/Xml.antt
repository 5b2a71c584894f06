-- ===== src/Xml.antt =====
-- libxml2, as far as patches use it: an element with text content, which xmlNewChild makes and
-- xmlNodeGetContent reads. xmlNewChild takes its content as XML, so an ampersand in it is not
-- plain text: `content_of` is what xmlNodeGetContent returns for a child made with a content.
use gnu_lash.Prelude.{◌≡◌, ◌==◌, false, [], ◌∷◌, Str}

pub record Element : Type 0 where
  pub name : Str
  pub content : Str

-- There is no ampersand in the text.
abbrev pub IsPlain : Str → Type 0
IsPlain [] = Unit {0}
IsPlain (c ∷ s) = ((c == b'&') ≡ false) × IsPlain s

pub record XmlLib : Type 0 where
  pub content_of : Str → Str
  pub content_of-plain : (s : Str) → IsPlain s → content_of s ≡ s
