-- ===== src/Lib.antt =====
-- bigoci stores one large file in an OCI registry: `push` splits the file into parts, uploads them as
-- layers and writes a manifest; `pull` reads the manifest and fetches the parts back into a file.
-- This library models the parts of the program whose behaviour is a matter of computation, from the
-- Go source, and proves what makes them correct. Paths are from the root of the repository.
--
-- The parts of the program, and the files that model them:
-- * internal/plan/plan.go, the split of a file: Plan (New, Part, Parts). Sizes are int64 values, with
--   wrapping arithmetic written out by add64, sub64 and mul64 of Prelude/Int.
-- * internal/manifest, the format of the manifest: Manifest (Encode, validate), Manifest/Decode
--   (Decode), Manifest/Bound (the bound on the layers array, on the JSON text). Both use Plan for the
--   split rule. What they take from image-spec and go-digest is the record Oci, a parameter. Encode
--   is modelled up to the struct that it marshals and Decode from the struct that encoding/json
--   fills; Manifest/RoundTrip relates the two structs by the member names in their tags.
-- * internal/retry, the retry policy: Retry (Do, backoff, normalized). The operation, the context, the
--   clock and the random source act on a world that is passed along, and Retry/Log records what the
--   loop does to it. Errors are the trees of Errors, with Transient and IsTransient of
--   internal/retry/fault.go.
-- * internal/transfer/pull.go, one part: Fetch (attempt, stream) and Fetch/Whole (fetch, verify), over
--   Retry; Pull interleaves the workers on the ranges of the file. The answers of the blob port are
--   data, and the digest of a text is a parameter.
-- * internal/transfer/progress.go, the account of a transfer: Progress, a state with one function per
--   method of the reporter; its mutex makes each method one step.
-- * internal/transfer/push.go, a push: Claims, the claims of the workers on equal parts, and Push, the
--   upload of one part and the check of what is read of the file. Push/Workers interleaves the
--   workers as a step relation on a registry that others use too. Push/Publish is the hash pass, and
--   Push/Publish/Ordered the empty config and the manifest that end a push.
-- * internal/oci/redirect.go, following redirects: Redirect. The network is a function from the
--   number of hops left and the request to a response. Redirect/Session has checkSession and, of
--   internal/oci/classify.go, retryAfter.
-- * internal/oci/blobs.go, where a range response starts: Range, which keeps the contract that Fetch
--   checks of the blob port.
-- * internal/oci/challenge.go, reading WWW-Authenticate: Challenge; Challenge/Written is the header as
--   the grammar writes it. internal/oci/encoding.go: Encoding.
-- * internal/oci/authstate.go, the tokens of one repository: Auth, one function per operation under the
--   mutex; Auth/System interleaves the workers and the exchanges as a step relation. Auth/Scopes has
--   credentials.go, and Auth/Exchange token.go up to the token endpoint, a parameter.
-- * internal/oci/repository.go, sending a request and answering its refusal: Send, over Auth and
--   Redirect. The network and the other workers act on a world that is passed along.
-- * cli/size.go, the grammar of part sizes: Size.
-- Text and Decimal hold what the source uses of Go's strings, utf8 and strconv packages; Prelude has
-- the notation, Boolean tests, lists, integers and dictionaries that all share. Tests runs the
-- definitions on concrete inputs and the theorems at inputs that meet their hypotheses.
--
-- Bounds and fuel: an int64 is an integer whose arithmetic wraps, and theorems name the range they
-- need. The scan of a challenge header runs on fuel of one more than the bytes of the header; every
-- round consumes a byte, so the fuel is enough (Challenge/Total). A printed decimal has at most 19
-- digits, which an int64 needs. `follow` makes at most three hops, which bounds its recursion; `send`
-- runs on fuel for the refusals that come back from a redirect, which no amount bounds (Send/Endless),
-- and `Do` recurses on the attempts that are left. All other loops are structural.
--
-- Not modelled: encoding/json, net/url and net/http themselves, files and sockets, the steps of
-- a pull around its workers and what starts those of a push, the terminal and the benchmarks. Error texts are kept only where they tell two errors apart. Host names compare by a
-- parameter, since strings.EqualFold folds more than ASCII.
pub mod Auth
pub mod Challenge
pub mod Claims
pub mod Decimal
pub mod Encoding
pub mod Errors
pub mod Fetch
pub mod Manifest
pub mod Plan
pub mod Prelude
pub mod Progress
pub mod Pull
pub mod Push
pub mod Range
pub mod Redirect
pub mod Retry
pub mod Send
pub mod Size
pub mod Tests
pub mod Text
