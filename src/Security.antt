-- ===== src/Security.antt =====
-- pmqa/security/boundary_policy.py: the prohibited-key policies of the serializable boundaries.
pub mod Normal
use pmqa.Base.{
  ℕ, ◌+◌, ◌==◌, leb, String, Bool, true, false, ◌&&◌, ◌||◌, List, [], ◌∷◌, ◌++◌, if◌then◌else◌,
  codes,
}

abbrev pub common_prohibited_keys : List String
common_prohibited_keys =
    "access_token" ∷ "api_key" ∷ "apikey" ∷ "authorization" ∷ "browser" ∷ "browser_context"
    ∷ "browser_state" ∷ "cookie" ∷ "cookies" ∷ "credential" ∷ "credentials" ∷ "dom" ∷ "html"
    ∷ "passwd" ∷ "password" ∷ "playwright" ∷ "raw_dom" ∷ "refresh_token" ∷ "runtime" ∷ "screenshot"
    ∷ "secret" ∷ "session" ∷ "session_id" ∷ "storage_state" ∷ "token" ∷ "tokens" ∷ []

-- `REASONING_PROHIBITED_KEYS`
abbrev pub reasoning_prohibited_keys : List String
reasoning_prohibited_keys = common_prohibited_keys

abbrev pub workflow_state_prohibited_keys : List String
workflow_state_prohibited_keys =
    common_prohibited_keys ++ "connection" ∷ "llm_client" ∷ "locator" ∷ "provider_instance" ∷ []

abbrev pub run_payload_prohibited_keys : List String
run_payload_prohibited_keys =
    workflow_state_prohibited_keys
    ++ ("absolute_path" ∷ "auth" ∷ "authentication" ∷ "cancellation_token" ∷ "cause" ∷ "command"
        ∷ "environment" ∷ "env" ∷ "event_sink" ∷ "exception" ∷ "executable" ∷ "executable_path"
        ∷ "import_path" ∷ "page" ∷ "process_config" ∷ "prompt" ∷ "provider_client" ∷ "raw_payload"
        ∷ "response" ∷ "stderr" ∷ "stdout" ∷ "storage_provider" ∷ "terminal_output" ∷ "traceback"
        ∷ [])

-- `[a-z0-9]`
unfoldable pub is_plain : ℕ → Bool
is_plain c = leb b'a' c && leb c b'z' || leb b'0' c && leb c b'9'

abbrev lookup_fold : ℕ → List (ℕ × List ℕ) → List ℕ
lookup_fold c [] = c ∷ []
lookup_fold c ((d, folded) ∷ table) = if c == d then folded else lookup_fold c table

-- The characters outside ASCII whose full case folding has a letter of ASCII.
abbrev special_folds : List (ℕ × List ℕ)
special_folds =
    (0xdf, b's' ∷ b's' ∷ [])
    ∷ (0x130, b'i' ∷ 0x307 ∷ [])
    ∷ (0x149, 0x2bc ∷ b'n' ∷ [])
    ∷ (0x17f, b's' ∷ [])
    ∷ (0x1f0, b'j' ∷ 0x30c ∷ [])
    ∷ (0x1e96, b'h' ∷ 0x331 ∷ [])
    ∷ (0x1e97, b't' ∷ 0x308 ∷ [])
    ∷ (0x1e98, b'w' ∷ 0x30a ∷ [])
    ∷ (0x1e99, b'y' ∷ 0x30a ∷ [])
    ∷ (0x1e9a, b'a' ∷ 0x2be ∷ [])
    ∷ (0x1e9e, b's' ∷ b's' ∷ [])
    ∷ (0x212a, b'k' ∷ [])
    ∷ (0xfb00, b'f' ∷ b'f' ∷ [])
    ∷ (0xfb01, b'f' ∷ b'i' ∷ [])
    ∷ (0xfb02, b'f' ∷ b'l' ∷ [])
    ∷ (0xfb03, b'f' ∷ b'f' ∷ b'i' ∷ [])
    ∷ (0xfb04, b'f' ∷ b'f' ∷ b'l' ∷ [])
    ∷ (0xfb05, b's' ∷ b't' ∷ [])
    ∷ (0xfb06, b's' ∷ b't' ∷ [])
    ∷ []

-- Python's `str.casefold` on one character, as far as `[^a-z0-9]+` can see the outcome: any other
-- character outside ASCII folds to characters outside ASCII, at least one, and is left as it is.
unfoldable pub casefold_char : ℕ → List ℕ
casefold_char c = if leb b'A' c && leb c b'Z' then (c + 32) ∷ [] else lookup_fold c special_folds

unfoldable pub casefold : List ℕ → List ℕ
casefold [] = []
casefold (c ∷ cs) = casefold_char c ++ casefold cs

-- `re.sub(r"[^a-z0-9]+", "_", s)`; the flag says that a run has been replaced already.
unfoldable pub sub_runs : Bool → List ℕ → List ℕ
sub_runs in_run [] = []
sub_runs in_run (c ∷ cs) =
    let plain = c ∷ sub_runs false cs in
    let rest = sub_runs true cs in
    if is_plain c then plain else if in_run then rest else b'_' ∷ rest

-- `s.strip("_")`
unfoldable pub strip_left : List ℕ → List ℕ
strip_left [] = []
strip_left (c ∷ cs) = if c == b'_' then strip_left cs else c ∷ cs

abbrev cons_unless_blank : ℕ → List ℕ → List ℕ
cons_unless_blank c [] = if c == b'_' then [] else c ∷ []
cons_unless_blank c (d ∷ ds) = c ∷ d ∷ ds

unfoldable pub strip_right : List ℕ → List ℕ
strip_right [] = []
strip_right (c ∷ cs) = cons_unless_blank c (strip_right cs)

unfoldable pub normalize_boundary_key : List ℕ → List ℕ
unfolding casefold casefold_char sub_runs is_plain strip_left strip_right
normalize_boundary_key value = strip_right (strip_left (sub_runs false (casefold value)))

abbrev pub codes_eq : List ℕ → List ℕ → Bool
codes_eq [] [] = true
codes_eq (a ∷ as') (b ∷ bs) = a == b && codes_eq as' bs
codes_eq _ _ = false

-- `normalized in policy`
unfoldable pub in_policy : List ℕ → List String → Bool
in_policy normalized [] = false
in_policy normalized (key ∷ policy) = codes_eq normalized (codes key) || in_policy normalized policy

unfoldable pub is_prohibited_key : String → List String → Bool
unfolding normalize_boundary_key in_policy
is_prohibited_key value policy = in_policy (normalize_boundary_key (codes value)) policy
