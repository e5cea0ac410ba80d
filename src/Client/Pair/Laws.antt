-- ===== src/Client/Pair/Laws.antt =====
-- When `gs_pair` pairs, and what it does where it fails.
use moonlight_wii.Prelude.{
  ◌≡◌, refl, ap, sym, ◌∙◌, Bool, true, false, some, List, ◌∷◌, arith, take, not-false,
}
use mathlib.Core.Path.{fun_ext}
use moonlight_wii.Prelude.Int.{ℤ}
use moonlight_wii.Prelude.Text.{Bytes, codes, str_eq, str_eq→≡}
use moonlight_wii.Errors.{gs_ok, gs_failed, gs_wrong_state}
use moonlight_wii.Xml.{Document, xml_search, xml_status}
use moonlight_wii.Client.{
  Server, Client, Outcome, done, raised, ◌>>=◌, ◌>>◌, then_run, Exec, ret, raise, fail_if,
  http_request,
}
use moonlight_wii.Client.Requests.{gs_unpair}
use moonlight_wii.Client.Requests.Laws.{gs_unpair-server}
use moonlight_wii.Client.Pair.{
  Crypto, first_reply, stage_cert, stage_challenge, stage_response, check_server, stage_secret,
  pair_body, pair_cleanup, gs_pair, pair_request, search_or_code, aes_key, hash_length, is_sha256,
  challenge_response,
}

abbrev is_done : {A : Type 0} → Outcome A → Bool
is_done (done a) = true
is_done (raised e) = false

-- A sequence that gets to its end went through its first part.
then_run-done :
    {A B : Type 0} (f : A → Exec Client B) (o : Outcome A) (c : Client)
    → is_done (then_run f o c).0 ≡ true
    → (a : A) × (o ≡ done a) × (is_done (f a c).0 ≡ true)
then_run-done f (done a) c h = (a, refl, h)
then_run-done f (raised e) c h = cc

-- What a run of the stages from the client `c` on has shown: the certificate is what the first answers of
-- this client gave, the decrypted answer to our challenge and the signed secret came in the answers after
-- them; what was signed verifies, and the answer begins with the hash of our challenge, the certificate's
-- signature and the secret.
pub record Authentic (k : Crypto) (s : Server) (cert_hex pin : Bytes) (c : Client) : Type 0 where
  pub cert : Bytes
  pub got_cert : (stage_cert k s cert_hex c).0 ≡ done cert
  pub dec : Bytes
  pub answered : (stage_challenge k s (aes_key k s pin) (stage_cert k s cert_hex c).1).0 ≡ done dec
  pub secret : Bytes × Bytes
  pub received :
      (stage_response k s
        (aes_key k s pin)
        dec
        (stage_challenge k s (aes_key k s pin) (stage_cert k s cert_hex c).1).1).0
      ≡ done secret
  pub signed : k.verifies secret.0 secret.1 cert ≡ true
  pub matched :
      take (hash_length s) (
        k.hash
          (is_sha256 s)
          (challenge_response k.random_challenge (k.cert_signature cert) secret.0))
      ≡ take (hash_length s) dec

fail_if-done : (b : Bool) (e : ℤ) (c : Client) → is_done (fail_if b e c).0 ≡ true → b ≡ false
fail_if-done true e c h = cc
fail_if-done false e c h = refl

check_server-done :
    (k : Crypto) (s : Server) (cert dec : Bytes) (secret : Bytes × Bytes) (c : Client)
    → is_done (check_server k s cert dec secret c).0 ≡ true
    → (k.verifies secret.0 secret.1 cert ≡ true)
      × (take (hash_length s) (
            k.hash
              (is_sha256 s)
              (challenge_response k.random_challenge (k.cert_signature cert) secret.0))
          ≡ take (hash_length s) dec)
unfolding check_server
check_server-done k s cert dec secret c h =
    let (u, first, second) = then_run-done _ (fail_if _ gs_failed c).0 _ h in
    (
      not-false _ (fail_if-done _ gs_failed c (ap is_done first)),
      str_eq→≡ _ _ (not-false _ (fail_if-done _ gs_failed _ second)),
    )

-- The body for a server that is not paired.
abbrev unpaired_body : Crypto → Server → Bytes → Bytes → Exec Client (Unit {0})
unpaired_body k s cert_hex pin = do
  cert ← stage_cert k s cert_hex
  dec ← stage_challenge k s (aes_key k s pin)
  secret ← stage_response k s (aes_key k s pin) dec
  check_server k s cert dec secret
  stage_secret k s

pair_body-unpaired :
    (k : Crypto) (s : Server) (cert_hex pin : Bytes) (c : Client)
    → s.paired ≡ false
    → pair_body k s cert_hex pin c ≡ unpaired_body k s cert_hex pin c
unfolding pair_body
pair_body-unpaired k s cert_hex pin c p = rw p refl

unpaired_body-Authentic :
    (k : Crypto) (s : Server) (cert_hex pin : Bytes) (c : Client)
    → is_done (unpaired_body k s cert_hex pin c).0 ≡ true
    → Authentic k s cert_hex pin c
unpaired_body-Authentic k s cert_hex pin c h =
    let (cert, got_cert, h2) = then_run-done _ (stage_cert k s cert_hex _).0 _ h in
    let (dec, answered, h3) = then_run-done _ (stage_challenge k s _ _).0 _ h2 in
    let (secret, sent, h4) = then_run-done _ (stage_response k s _ dec _).0 _ h3 in
    let (u', checked, h5) = then_run-done _ (check_server k s cert dec secret _).0 _ h4 in
    let (signed, matched) = check_server-done k s cert dec secret _ (ap is_done checked) in
    record {
      cert = cert;
      got_cert = got_cert;
      dec = dec;
      answered = answered;
      secret = secret;
      received = sent;
      signed = signed;
      matched = matched;
    }

pair_cleanup-done :
    (o : Outcome (Unit {0})) (s : Server) (c : Client)
    → s.paired ≡ false
    → (pair_cleanup o s c).server.paired ≡ true
    → is_done o ≡ true
unfolding pair_cleanup
pair_cleanup-done (done a) s c p h = refl
pair_cleanup-done (raised e) s c p h = ground (arith, gs_unpair-server s c)

-- Whatever a host answers: `gs_pair` takes a server that is not paired for paired only if, among the
-- answers to this run's requests, the secret that the host sent carries a signature that verifies against
-- the certificate that it gave first, and if its answer to our challenge, decrypted with the key from the
-- salted PIN, begins with the expected hash.
pub gs_pair-Authentic :
    (k : Crypto) (pin : Bytes) (s : Server) (c : Client)
    → s.paired ≡ false
    → (gs_pair k pin s c).server.paired ≡ true
    → Authentic k s c.cert_hex pin c
unfolding gs_pair
gs_pair-Authentic k pin s c p h =
    let body = pair_body k s c.cert_hex pin c in
    let through : is_done body.0 ≡ true = pair_cleanup-done body.0 s body.1 p h in
    unpaired_body-Authentic k s c.cert_hex pin c
      (ap (λ o. is_done o.0) (sym (pair_body-unpaired k s c.cert_hex pin c p)) ∙ through)

search_or_code-found :
    (d : Document) (node text : Bytes)
    → xml_search d node ≡ (gs_ok, some text)
    → search_or_code d node ≡ ret text
unfolding search_or_code
search_or_code-found d node text h = fun_ext (λ c. rw (h, search_or_code) refl)

first_reply-declined :
    (d : Document) (answer : Bytes)
    → xml_status d ≡ gs_ok
    → xml_search d (codes "paired") ≡ (gs_ok, some answer)
    → str_eq answer (codes "1") ≡ false
    → first_reply d ≡ raise gs_ok
unfolding first_reply
first_reply-declined d answer status found other = fun_ext (λ c.
    rw (status, search_or_code-found d (codes "paired") answer found, other, first_reply) refl)

-- A host that declines the pairing with a well-formed answer makes `gs_pair` return GS_OK, with no further
-- request and the server's data unchanged.
pub gs_pair-declined :
    (k : Crypto) (pin : Bytes) (s : Server) (c : Client) (d : Document) (answer : Bytes)
    (rest : List (ℤ × Document))
    → s.paired ≡ false
    → c.replies ≡ (gs_ok, d) ∷ rest
    → xml_status d ≡ gs_ok
    → xml_search d (codes "paired") ≡ (gs_ok, some answer)
    → str_eq answer (codes "1") ≡ false
    → let r = gs_pair k pin s c in (r.code ≡ gs_ok) × (r.server ≡ s) × (r.client.replies ≡ rest)
unfolding gs_pair pair_body stage_cert pair_request http_request pair_cleanup
gs_pair-declined k pin s c d answer rest np reply status found other =
    rw (np, reply, first_reply-declined d answer status found other) (refl, refl, refl)

-- `gs_pair` on a server that is paired already sends it the request to unpair: the result is GS_WRONG_STATE, and
-- where the host accepts, the pairing is gone.
pub gs_pair-already_paired :
    (k : Crypto) (pin : Bytes) (s : Server) (c : Client)
    → s.paired ≡ true
    → let r = gs_pair k pin s c in
      (r.code ≡ gs_wrong_state)
      × (r.server ≡ (gs_unpair s c).server)
      × (r.client ≡ (gs_unpair s c).client)
unfolding gs_pair pair_body pair_cleanup
gs_pair-already_paired k pin s c h = ground (arith)
