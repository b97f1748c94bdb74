-- ===== src/Examples/Operator.antt =====
-- An operator at the terminal of interview/prompt.py who answers every prompt alike.
use dng_preflight.Base.{◌≢◌, sym, ◌∙◌, subst, some, true, inr, ◌==◌, if◌then◌else◌}
use dng_preflight.Base.Int.{pos}
use dng_preflight.Base.Exec.{Returns}
use dng_preflight.Base.Text.{split}
use dng_preflight.Validation.Version.{parse_int}
use dng_preflight.Interview.Questions.{public_hostname}
use dng_preflight.Interview.Prompt.{networks}
use dng_preflight.Interview.Cooperative.{IsCooperative, proxies_message, count_messages}
use dng_preflight.Base.{◌≡◌, refl, [], ok}
use dng_preflight.Base.{
  map, ◌∷◌, err, Result, runtime_error, In, inl, ap, ok-injective, List, String,
}
use dng_preflight.Interview.Prompt.{Dialogue}
use dng_preflight.Interview.Prompted.{value_of}
use dng_preflight.Interview.Questions.{Choice, validate_hostname}
use dng_preflight.Base.Text.{strip, has_char}
use dng_preflight.Interview.Hostname.{IsNamed, Holds, validate_hostname_iff}

-- What the operator types at a line.
abbrev typed : String → String
typed message =
    if message == public_hostname.prompt
    then "dng.example.com"
    else if message == proxies_message
    then "10.0.0.0/8, 192.168.1.0/24"
    else "2"

-- The first choice.
abbrev pick : {W : Type 0} → List Choice → W → Result String × W
pick [] w = (err (runtime_error "no choices"), w)
pick (choice ∷ choices) w = (ok choice.value, w)

abbrev pub operator : {W : Type 0} → Dialogue W
operator = record {
  select = λ message choices w. pick choices w;
  text_line = λ message initial w. (ok (typed message), w);
  path = λ message w. (ok "/etc/ssl/dng.pem", w);
  confirm = λ message initial w. (ok true, w);
  ip_network = λ part. ok part;
  str = λ _. "";
}

pick-faithful :
    {W : Type 0} (choices : List Choice) (w w' : W) (value : String)
    → pick choices w ≡ (ok value, w')
    → In value (map value_of choices)
pick-faithful [] w w' value h = cc (ap (λ r. r.0) h)
pick-faithful (choice ∷ choices) w w' value h =
    inl (ok-injective choice.value value (ap (λ r. r.0) h))

pick-Returns :
    {W : Type 0} (choices : List Choice) (w : W) → choices ≢ [] → Returns (pick choices w)
pick-Returns [] w h = absurd (h refl)
pick-Returns (choice ∷ choices) w h = (choice.value, w, refl)

line_of :
    {W : Type 0} (a line : String) (w w' : W)
    → ◌≡◌ {A = Result String × W} (ok a, w) (ok line, w')
    → a ≡ line
line_of a line w w' h = ok-injective a line (ap (λ r. r.0) h)

typed_count : (message : String) → In message count_messages → typed message ≡ "2"
typed_count message (inl e) = rw (sym e)
typed_count message (inr (inl e)) = rw (sym e)
typed_count message (inr (inr (inl e))) = rw (sym e)
typed_count message (inr (inr (inr m))) = elim m [ ]

named : IsNamed "dng.example.com" × Holds "." "dng.example.com"
unfolding validate_hostname strip has_char
named = (validate_hostname_iff "dng.example.com").0 refl

two : parse_int "2" ≡ some (pos 2)
unfolding parse_int strip
two = refl

two_networks :
    (W : Type 0)
    → networks (operator {W = W}) (split "," "10.0.0.0/8, 192.168.1.0/24")
      ≡ ok ("10.0.0.0/8" ∷ "192.168.1.0/24" ∷ [])
unfolding networks split strip
two_networks W = refl

pub operator-IsCooperative : {W : Type 0} → IsCooperative (operator {W = W})
operator-IsCooperative {W} = record {
  selects = λ message choices w h. pick-Returns choices w h;
  faithful = λ message choices w w' value h. pick-faithful choices w w' value h;
  paths = λ message w. (_, _, refl);
  confirms = λ message initial w. (_, _, refl);
  lines = λ message initial w. (_, _, refl);
  hostname =
      λ initial line w w' h. subst (λ s. IsNamed s × Holds "." s) (line_of _ line _ w' h) named;
  counts = λ message line w w' m h.
      (pos 2, ap parse_int (sym (line_of _ line _ w' h) ∙ typed_count message m) ∙ two);
  proxies = λ line w w' h. (
    "10.0.0.0/8" ∷ "192.168.1.0/24" ∷ [],
    ap (λ s. networks (operator {W = W}) (split "," s)) (sym (line_of _ line _ w' h))
        ∙ two_networks W,
    λ e. cc e,
  );
}
