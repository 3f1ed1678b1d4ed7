-- ===== src/Server/Mirror/Tests/Encoding.antt =====
-- A format that writes every service, for the tests.
use ongrok_relay.Prelude.{
  ℕ, zero, suc, ◌≡◌, refl, subst, List, [], ◌∷◌, ◌++◌, Option, none, some, Text, ok, Fallible,
  length, take, drop, take-append, drop-append,
}
use ongrok_relay.Libongrok.Types.{ServiceDefinition, Protocol, Metadata}
use ongrok_relay.Server.Store.{Format}
use ongrok_relay.Server.Tests.{ssh}

-- A text is written with its length, and a list with its own.
unfoldable pub put_text : Text → Text → Text
put_text t rest = length t ∷ t ++ rest

unfoldable pub get_text : Text → Text × Text
get_text [] = ([], [])
get_text (n ∷ t) = (take n t, drop n t)

pub get-put_text : (t rest : Text) → get_text (put_text t rest) ≡ (t, rest)
unfolding get_text put_text
get-put_text t rest = rw (take-append t rest, drop-append t rest) refl

unfoldable pub put_text_option : Option Text → Text → Text
put_text_option none rest = 0 ∷ rest
put_text_option (some t) rest = 1 ∷ put_text t rest

unfoldable pub get_text_option : Text → Option Text × Text
get_text_option (suc _ ∷ rest) = let (t, later) = get_text rest in (some t, later)
get_text_option (zero ∷ rest) = (none, rest)
get_text_option [] = (none, [])

pub get-put_text_option :
    (o : Option Text) (rest : Text) → get_text_option (put_text_option o rest) ≡ (o, rest)
unfolding get_text_option put_text_option
get-put_text_option none rest = refl
get-put_text_option (some t) rest = rw (get-put_text t rest) refl

unfoldable pub put_port : Option ℕ → Text → Text
put_port none rest = 0 ∷ 0 ∷ rest
put_port (some port) rest = 1 ∷ port ∷ rest

unfoldable pub get_port : Text → Option ℕ × Text
get_port (suc _ ∷ port ∷ rest) = (some port, rest)
get_port (zero ∷ _ ∷ rest) = (none, rest)
get_port _ = (none, [])

pub get-put_port : (o : Option ℕ) (rest : Text) → get_port (put_port o rest) ≡ (o, rest)
unfolding get_port put_port
get-put_port none rest = refl
get-put_port (some port) rest = refl

unfoldable pub put_entries : List (Text × Text) → Text
put_entries [] = []
put_entries ((key, value) ∷ entries) = put_text key (put_text value (put_entries entries))

unfoldable pub get_entries : ℕ → Text → List (Text × Text)
get_entries zero t = []
get_entries (suc n) t =
    let (key, u) = get_text t in let (value, v) = get_text u in (key, value) ∷ get_entries n v

pub get-put_entries :
    (entries : List (Text × Text)) → get_entries (length entries) (put_entries entries) ≡ entries
unfolding get_entries put_entries
get-put_entries [] = refl
get-put_entries ((key, value) ∷ entries) = simp (get-put_text, get-put_entries entries)

unfoldable pub put_protocol : Protocol → ℕ
put_protocol Protocol.http = 0
put_protocol Protocol.https = 1
put_protocol Protocol.tcp = 2

unfoldable pub get_protocol : ℕ → Protocol
get_protocol zero = Protocol.http
get_protocol (suc zero) = Protocol.https
get_protocol (suc (suc n)) = Protocol.tcp

pub get-put_protocol : (p : Protocol) → get_protocol (put_protocol p) ≡ p
unfolding get_protocol put_protocol
get-put_protocol Protocol.http = refl
get-put_protocol Protocol.https = refl
get-put_protocol Protocol.tcp = refl

abbrev pub encode : ServiceDefinition → Text
encode s =
    s.service_id
    ∷ s.node_id
    ∷ put_protocol s.protocol
    ∷ put_text s.service_name (
        put_text s.local_address (
          put_text_option s.public_host
            (put_port s.public_port (length s.metadata.entries ∷ put_entries s.metadata.entries))))

unfoldable pub get_metadata : Text → Metadata
get_metadata [] = record { entries = [] }
get_metadata (n ∷ t) = record { entries = get_entries n t }

pub get-put_metadata : (m : Metadata) → get_metadata (length m.entries ∷ put_entries m.entries) ≡ m
unfolding get_metadata
get-put_metadata m = λ i. record { entries = get-put_entries m.entries i }

abbrev pub decode : Text → Fallible ServiceDefinition
decode (service_id ∷ node_id ∷ protocol ∷ t) =
    let (name, t1) = get_text t in
    let (address, t2) = get_text t1 in
    let (host, t3) = get_text_option t2 in
    let (port, t4) = get_port t3 in
    ok (record {
      service_id = service_id;
      service_name = name;
      node_id = node_id;
      protocol = get_protocol protocol;
      local_address = address;
      public_host = host;
      public_port = port;
      metadata = get_metadata t4;
    })
decode _ = ok (record ssh { service_id = 0 })

pub decode-encode : (s : ServiceDefinition) → decode (encode s) ≡ ok s
decode-encode s =
    simp (get-put_text, get-put_text_option, get-put_port, get-put_protocol, get-put_metadata)

abbrev pub wrote : Text → Fallible Text
wrote t = ok t

pub decode-encoded : (s : ServiceDefinition) (b : Text) → wrote (encode s) ≡ ok b → decode b ≡ ok s
decode-encoded s b e =
    let same : encode s ≡ b = cc e in subst (λ x. decode x ≡ ok s) same (decode-encode s)

abbrev pub all_services : Format ServiceDefinition
all_services = record {
  to_allocvec = λ s. ok (encode s);
  from_bytes = decode;
  round_trip = decode-encoded;
}
