-- ===== src/Xml/Search.antt =====
-- What `xml_search` finds in a well-formed document.
use moonlight_wii.Prelude.{
  ℕ, zero, suc, ◌≡◌, ap, ap₂, ◌∙◌, sym, Bool, false, ◌||◌, some, List, [], ◌∷◌, ◌++◌, if◌then◌else◌,
  append_assoc, append-nil, arith, ltb,
}
use moonlight_wii.Prelude.Int.{pos}
use moonlight_wii.Prelude.Text.{Bytes, str_eq}
use moonlight_wii.Errors.{gs_ok}
use moonlight_wii.Xml.{
  search_result, Event, start, end, cdata, Query, search_event, search_events, xml_search,
}

-- The content of an element: elements with their content, and text, each before the rest.
pub data Forest : Type 0 where
  nil : Forest
  element : Bytes → List (Bytes × Bytes) → Forest → Forest → Forest
  text : Bytes → Forest → Forest

-- The calls that a parser makes for it.
unfoldable pub flatten : Forest → List Event
flatten nil = []
flatten (element name attributes kids rest) =
    start name attributes ∷ (flatten kids ++ end name ∷ flatten rest)
flatten (text s rest) = cdata s ∷ flatten rest

-- The text that stands inside elements of a name, at any depth, in order.
unfoldable pub text_within : Bytes → Bool → Forest → Bytes
text_within node inside nil = []
text_within node inside (element name attributes kids rest) =
    text_within node (inside || str_eq node name) kids ++ text_within node inside rest
text_within node inside (text s rest) = (if inside then s else []) ++ text_within node inside rest

abbrev searching : Bytes → ℕ → Query
searching m k = record { memory = some m; open_count = pos k }

step-text :
    (node m s : Bytes) (k : ℕ)
    → search_event node (cdata s) (searching m k) ≡ searching (m ++ (if ltb 0 k then s else [])) k
unfolding search_event
step-text node m s zero = rw append-nil
step-text node m s (suc k) = ground arith

step-start :
    (node m name : Bytes) (attributes : List (Bytes × Bytes)) (k : ℕ)
    → search_event node (start name attributes) (searching m k)
      ≡ searching m (if str_eq node name then suc k else k)
unfolding search_event
step-start node m name attributes k = ground arith

step-end :
    (node m name : Bytes) (k : ℕ)
    → search_event node (end name) (searching m (if str_eq node name then suc k else k))
      ≡ searching m k
unfolding search_event
step-end node m name k = ground arith

inside-opened : (b : Bool) (k : ℕ) → ltb 0 (if b then suc k else k) ≡ (ltb 0 k || b)
inside-opened b k = ground arith

search_events-flatten :
    (node : Bytes) (f : Forest) (es : List Event) (m : Bytes) (k : ℕ)
    → search_events node (flatten f ++ es) (searching m k)
      ≡ search_events node es (searching (m ++ text_within node (ltb 0 k) f) k)
unfolding search_events flatten text_within
search_events-flatten node nil es m k = rw append-nil
search_events-flatten node (text s rest) es m k =
    ap (search_events node (flatten rest ++ es)) (step-text node m s k)
    ∙ search_events-flatten node rest es (m ++ (if ltb 0 k then s else [])) k
    ∙ ap (λ t. search_events node es (searching t k)) (append_assoc m _ _)
search_events-flatten node (element name attributes kids rest) es m k =
    let k' = if str_eq node name then suc k else k in
    let m' = m ++ text_within node (ltb 0 k') kids in
    ap₂ (search_events node) (append_assoc (flatten kids) (end name ∷ flatten rest) es)
      (step-start node m name attributes k)
    ∙ (search_events-flatten node kids (end name ∷ (flatten rest ++ es)) m k'
        ∙ ap (search_events node (flatten rest ++ es)) (step-end node m' name k)
        ∙ search_events-flatten node rest es m' k
        ∙ ap (λ t. search_events node es (searching t k))
            (append_assoc m _ _
              ∙ ap (λ b. m ++ (text_within node b kids ++ text_within node (ltb 0 k) rest))
                  (inside-opened (str_eq node name) k)))

-- On a well-formed document `xml_search` succeeds, with all the text inside elements of the name.
pub xml_search-flatten :
    (f : Forest) (node : Bytes)
    → xml_search (some (flatten f)) node ≡ (gs_ok, some (text_within node false f))
unfolding xml_search search_events
xml_search-flatten f node =
    ap (λ l. search_result (search_events node l (searching [] 0))) (sym (append-nil (flatten f)))
    ∙ ap search_result (search_events-flatten node f [] [] 0)
