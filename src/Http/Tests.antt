-- ===== src/Http/Tests.antt =====
-- libgamestream/http.c: runs.
use moonlight_wii.Prelude.{◌≡◌, refl, true, false, none, some, List, [], ◌∷◌, ◌++◌, arith}
use moonlight_wii.Prelude.Int.{pos}
use moonlight_wii.Prelude.Decimal.{print_nat, atoi}
use moonlight_wii.Prelude.Text.{Bytes, codes}
use moonlight_wii.Client.{construct_url}
use moonlight_wii.Http.{index_of}
use moonlight_wii.Http.Url.{parse_url, strip_prefix}
use moonlight_wii.Http.Response.{
  crlf2, Event, received, interrupted, timed_out, content_length_at, parse_content_length, matches,
  skip_separators,
}
use moonlight_wii.Prelude.Text.{is_prefix, contains}
use moonlight_wii.Http.Chunks.{IsHead, Brings, all, piece, again}
use moonlight_wii.Http.RoundTrip.{lacks, target, whole, parse_url-construct_url}

url-without_path :
    parse_url (codes "http://pc:8080")
    ≡ some (record { is_https = false; host = codes "pc"; port = pos 8080; path = codes ":8080" })
unfolding parse_url index_of strip_prefix atoi
url-without_path = refl

parse_url-construct_url_example :
    parse_url
      (construct_url (codes "0123") (codes "abcd") 4096 true (codes "10.0.0.2") (codes "quit") none)
    ≡ some (record {
      is_https = true;
      host = codes "10.0.0.2";
      port = pos 47984;
      path = b'/' ∷ target (codes "0123") (codes "abcd") (codes "quit") none;
    })
unfolding target whole lacks print_nat
parse_url-construct_url_example =
    parse_url-construct_url (codes "0123") (codes "abcd") 4096 true (codes "10.0.0.2")
      (codes "quit") none (omega arith) refl refl (omega arith) (omega arith)

abbrev sample_head : Bytes
sample_head = codes "HTTP/1.1 200 OK\r\nCONTENT-Length: 5\r\nConnection: close"

sample_head-IsHead : IsHead sample_head 5
unfolding lacks contains is_prefix parse_content_length content_length_at matches skip_separators
    atoi
sample_head-IsHead = record {
  no_nul = refl;
  no_crlf2 = refl;
  no_lf2 = refl;
  announces = λ rest. refl;
}

-- The answer in three pieces, the first of which ends within the blank line.
abbrev sample_events : List Event
sample_events =
    received (sample_head ++ codes "\r\n\r")
    ∷ interrupted
    ∷ received (codes "\nroo")
    ∷ received (codes "ts")
    ∷ timed_out
    ∷ []

sample_events-Brings : Brings sample_events (sample_head ++ (crlf2 ++ codes "roots"))
sample_events-Brings =
    piece (sample_head ++ codes "\r\n\r") _ (codes "\nroots")
      (again _ _ (piece (codes "\nroo") _ (codes "ts") (piece (codes "ts") _ [] (all _))))
