-- ===== src/Rss/DocumentParser.antt =====
-- include/cmlb/infrastructure/rss/rss_document_parser.hpp and
-- src/infrastructure/rss/rss_document_parser.cpp: RSS 2.0 and Atom documents. `std::regex` and
-- `std::get_time` with `timegm` are parameters.
pub mod Entries
use cpp_mirror_leech_bot.Prelude.{
  ℕ, zero, suc, ◌+◌, ◌-◌, ◌*◌, Bool, true, false, ◌&&◌, ◌||◌, ◌==◌, leb, Option, none, some, List,
  [], ◌∷◌, ◌++◌, if◌then◌else◌, Bytes, bytes, bytes_eq, is_empty, starts_with, length, take, drop,
  map,
}
use cpp_mirror_leech_bot.Prelude.Integers.{ℤ, pos, negsuc}
use cpp_mirror_leech_bot.Core.Error.{Result, ok, error, deserialization}
use cpp_mirror_leech_bot.Domain.Task.{TimePoint}

-- `std::regex`: whether a pattern compiles; the captures of the first match, the whole match first; and
-- the position and the captures of every match. The flag is `icase`.
pub record Regex : Type 0 where
  pub compiles : Bytes → Bool
  pub search : Bool → Bytes → Bytes → Option (List Bytes)
  pub search_all : Bool → Bytes → Bytes → List (ℕ × List Bytes)

pub record RssEntry : Type 0 where
  pub guid : Bytes
  pub title : Bytes
  pub link : Bytes
  pub magnet : Option Bytes
  pub torrent_url : Option Bytes
  pub description : Option Bytes
  pub published_at : Option TimePoint

pub record RssDocument : Type 0 where
  pub title : Bytes
  pub link : Bytes
  pub description : Option Bytes
  pub entries : List RssEntry

-- `m[n].str()`.
abbrev pub capture : ℕ → List Bytes → Bytes
capture n [] = []
capture zero (c ∷ rest) = c
capture (suc n) (c ∷ rest) = capture n rest

abbrev pub value_or {ℓ} : {A : Type ℓ} → A → Option A → A
value_or a none = a
value_or a (some b) = b

abbrev pub or_else {ℓ} : {A : Type ℓ} → Option A → Option A → Option A
or_else (some a) o = some a
or_else none o = o

-- One of the four characters of " \t\r\n".
abbrev is_blank : ℕ → Bool
is_blank c = (c == b' ' || c == 9) || (c == 13 || c == 10)

abbrev skip_blanks : Bytes → Bytes
skip_blanks [] = []
skip_blanks (c ∷ s) = if is_blank c then skip_blanks s else c ∷ s

-- The text up to its last character that is not blank.
abbrev drop_trailing : Bytes → Bytes
drop_trailing [] = []
drop_trailing (c ∷ s) =
    let rest = drop_trailing s in if is_blank c && is_empty rest then [] else c ∷ rest

abbrev ends_with : Bytes → Bytes → Bool
ends_with suffix s =
    leb (length suffix) (length s) && bytes_eq (drop (length s - length suffix) s) suffix

-- A single CDATA section that encloses the whole text is unwrapped.
unfoldable pub unwrap_cdata : Bytes → Bytes
unfolding bytes starts_with
unwrap_cdata s =
    if starts_with (bytes "<![CDATA[") s && ends_with (bytes "]]>") s
    then take (length s - 12) (drop 9 s)
    else s

module _ (regex : Regex) where
  -- A search of which one capture is wanted.
  abbrev captured : Bool → ℕ → Bytes → Bytes → Option Bytes
  captured icase n pattern text = elim (regex.search icase pattern text) [
    | none ↦ none
    | some m ↦ some (capture n m)
  ]

  unfoldable pub first_tag_text : Bytes → Bytes → Option Bytes
  unfolding bytes
  first_tag_text text tag =
      let pattern = bytes "<" ++ tag ++ bytes "\\b[^>]*>([\\s\\S]*?)</" ++ tag ++ bytes ">" in
      elim (captured true 1 pattern text) [
        | none ↦ none
        | some body ↦ some (unwrap_cdata (drop_trailing (skip_blanks body)))
      ]

  -- The value of an attribute in double quotes, and in single ones.
  unfoldable pub find_attr : Bytes → Bytes → Option Bytes
  unfolding bytes
  find_attr attrs name = captured true 1 (name ++ bytes "\\s*=\\s*\"([^\"]*)\"") attrs

  single_quoted : Bytes → Bytes → Option Bytes
  unfolding bytes
  single_quoted attrs name = captured true 1 (name ++ bytes "\\s*=\\s*'([^']*)'") attrs

  tag_pattern : Bytes → Bytes
  unfolding bytes
  tag_pattern tag = bytes "<" ++ tag ++ bytes "\\b([^>]*)\\/?>"

  unfoldable pub attr_of_tag : Bytes → Bytes → Bytes → Option Bytes
  unfolding find_attr single_quoted tag_pattern
  attr_of_tag text tag attr = elim (captured true 1 (tag_pattern tag) text) [
    | none ↦ none
    | some attrs ↦ or_else (find_attr attrs attr) (single_quoted attrs attr)
  ]

  -- The attributes of each tag, in order: what `for_each_tag` hands to its sink.
  unfoldable pub for_each_tag : Bytes → Bytes → List Bytes
  unfolding tag_pattern
  for_each_tag text tag = map (λ m. capture 1 m.1) (regex.search_all true (tag_pattern tag) text)

  unfoldable pub extract_magnet : Bytes → Option Bytes
  unfolding bytes
  extract_magnet text = captured false 0 (bytes "magnet:\\?xt=urn:btih:[A-Fa-f0-9]+[^\"<\\s]*") text

  -- The magnet link of the description, or else of the whole body.
  find_magnet : Option Bytes → Bytes → Option Bytes
  find_magnet none body = extract_magnet body
  find_magnet (some description) body = or_else (extract_magnet description) (extract_magnet body)

  -- `timegm_of format text` is what `timegm` makes of the time that `get_time` reads, where it reads one.
  module _ (timegm_of : Bytes → Bytes → Option ℤ) where
    -- `from_time_t`, from seconds to nanoseconds; -1 is `timegm`'s failure.
    abbrev from_time_t : ℤ → Option TimePoint
    from_time_t (pos n) = some (pos (n * 1000000000))
    from_time_t (negsuc zero) = none
    from_time_t (negsuc (suc n)) = some (negsuc (suc n * 1000000000 + 999999999))

    abbrev to_time : Option ℤ → Option TimePoint
    to_time none = none
    to_time (some t) = from_time_t t

    unfoldable pub parse_rfc822 : Bytes → Option TimePoint
    unfolding bytes
    parse_rfc822 text = to_time (
        or_else (timegm_of (bytes "%a, %d %b %Y %H:%M:%S") text)
          (timegm_of (bytes "%d %b %Y %H:%M:%S") text))

    unfoldable pub parse_rfc3339 : Bytes → Option TimePoint
    unfolding bytes
    parse_rfc3339 text = to_time (timegm_of (bytes "%Y-%m-%dT%H:%M:%S") text)

    abbrev dated : (Bytes → Option TimePoint) → Option Bytes → Option TimePoint
    dated parse none = none
    dated parse (some text) = parse text

    unfoldable pub parse_rss_item : Bytes → RssEntry
    unfolding bytes first_tag_text find_magnet
    parse_rss_item body =
        let link = value_or [] (first_tag_text body (bytes "link")) in
        let guid = value_or [] (first_tag_text body (bytes "guid")) in
        let description = first_tag_text body (bytes "description") in
        let kind = value_or [] (attr_of_tag body (bytes "enclosure") (bytes "type")) in
        record {
          guid = if is_empty guid then link else guid;
          title = value_or [] (first_tag_text body (bytes "title"));
          link = link;
          magnet = find_magnet description body;
          torrent_url =
              if bytes_eq kind (bytes "application/x-bittorrent")
              then attr_of_tag body (bytes "enclosure") (bytes "url")
              else none;
          description = description;
          published_at = dated parse_rfc822 (first_tag_text body (bytes "pubDate"));
        }

    -- The text before the first match of a pattern, or all of it.
    before_first : Bytes → Bytes → Bytes
    before_first pattern xml = elim (regex.search_all true pattern xml) [
      | [] ↦ xml
      | ◌∷◌ m rest ↦ take m.0 xml
    ]

    -- `emplace_back` for every match.
    abbrev each_entry : (Bytes → RssEntry) → List (ℕ × List Bytes) → List RssEntry
    each_entry parse [] = []
    each_entry parse (m ∷ rest) = parse (capture 1 m.1) ∷ each_entry parse rest

    abbrev pub item_regex : Bytes
    item_regex = bytes "<item\\b[^>]*>([\\s\\S]*?)</item>"

    abbrev pub atom_entry_regex : Bytes
    atom_entry_regex = bytes "<entry\\b[^>]*>([\\s\\S]*?)</entry>"

    unfoldable pub parse_rss : Bytes → RssDocument
    unfolding bytes before_first
    parse_rss xml =
        let channel = before_first item_regex xml in
        record {
          title = value_or [] (first_tag_text channel (bytes "title"));
          link = value_or [] (first_tag_text channel (bytes "link"));
          description = first_tag_text channel (bytes "description");
          entries = each_entry parse_rss_item (regex.search_all true item_regex xml);
        }

    -- One `<link>` of an Atom entry: the first alternate link is kept, and the last torrent.
    take_link : Bytes × Option Bytes → Bytes → Bytes × Option Bytes
    unfolding bytes
    take_link (alternate, torrent) attrs = elim (find_attr attrs (bytes "href")) [
      | none ↦ (alternate, torrent)
      | some href ↦
          let rel = value_or (bytes "alternate") (find_attr attrs (bytes "rel")) in
          let type = value_or [] (find_attr attrs (bytes "type")) in
          if bytes_eq type (bytes "application/x-bittorrent")
          then (alternate, some href)
          else if bytes_eq rel (bytes "alternate") && is_empty alternate
          then (href, torrent)
          else (alternate, torrent)
    ]

    abbrev take_links : Bytes × Option Bytes → List Bytes → Bytes × Option Bytes
    take_links links [] = links
    take_links links (attrs ∷ rest) = take_links (take_link links attrs) rest

    unfoldable pub parse_atom_entry : Bytes → RssEntry
    unfolding bytes take_link find_magnet
    parse_atom_entry body =
        let id = value_or [] (first_tag_text body (bytes "id")) in
        let description =
          or_else (first_tag_text body (bytes "summary")) (first_tag_text body (bytes "content")) in
        let (link, torrent) = take_links ([], none) (for_each_tag body (bytes "link")) in
        record {
          guid = if is_empty id then link else id;
          title = value_or [] (first_tag_text body (bytes "title"));
          link = link;
          magnet = find_magnet description body;
          torrent_url = torrent;
          description = description;
          published_at = dated parse_rfc3339 (
              or_else (first_tag_text body (bytes "published"))
                (first_tag_text body (bytes "updated")));
        }

    -- One `<link>` of an Atom feed: the first alternate link that is not empty.
    header_link : Bytes → Bytes → Bytes
    unfolding bytes
    header_link link attrs =
        let rel = value_or (bytes "alternate") (find_attr attrs (bytes "rel")) in
        if is_empty link && bytes_eq rel (bytes "alternate")
        then value_or link (find_attr attrs (bytes "href"))
        else link

    abbrev header_links : Bytes → List Bytes → Bytes
    header_links link [] = link
    header_links link (attrs ∷ rest) = header_links (header_link link attrs) rest

    unfoldable pub parse_atom : Bytes → RssDocument
    unfolding bytes before_first header_link
    parse_atom xml =
        let header = before_first atom_entry_regex xml in
        record {
          title = value_or [] (first_tag_text header (bytes "title"));
          link = header_links [] (for_each_tag header (bytes "link"));
          description = first_tag_text header (bytes "subtitle");
          entries = each_entry parse_atom_entry (regex.search_all true atom_entry_regex xml);
        }

    unfoldable pub matches : Bytes → Bytes → Bool
    matches pattern xml = elim (regex.search true pattern xml) [ none ↦ false | some m ↦ true ]

    unfoldable pub parse : Bytes → Result RssDocument
    unfolding bytes
    parse xml =
        if is_empty xml
        then error deserialization (bytes "empty RSS document")
        else if matches (bytes "<rss\\b") xml
        then ok (parse_rss xml)
        else if matches (bytes "<feed\\b") xml
        then ok (parse_atom xml)
        else error deserialization (bytes "document is neither RSS 2.0 nor Atom 1.0")
