-- ===== src/Lib.antt =====
-- Verification library of dng-preflight, a command-line tool that inspects a host, interviews the
-- operator, validates the resulting plan against seven hard-stop rules, and generates the artifacts
-- that deploy a Duo Network Gateway. The models are translations of the Python sources under
-- src/dng_preflight/.
--
-- How the parts interact. `inspect` and `plan` collect an `EnvironmentSnapshot`; `plan` runs the
-- interview over the ordered questions, builds a `DngConfig` from snapshot and answers, validates
-- it and saves it. `validate` and `generate` load a saved plan and validate it again with the
-- override flags; `generate` then renders six artifacts and writes them to a directory.
--
-- Which file models which part:
--   Models/Snapshot, Models/Answers, Models/Config: models/snapshot.py, models/answers.py and
--     models/config.py (`build_config`); Models/Document, Models/Dump, Models/Load with its
--     children: documents, `model_dump(mode="json")` and `model_validate`. Proofs: Models/Dumped
--     with its children, Models/Loaded.
--   Validation/Stops, Validation/HardStops: validation/hard_stops.py, each `_check_*` function
--     under its name without the underscore, `_ALL_CHECKS` and `validate_plan`; Validation/Version:
--     the parsing and the comparison of versions in `_check_dng_version`. Proofs: Validation/Rules
--     (what each rule demands), Validation/Plan, Validation/Report.
--   Interview/Questions: interview/questions.py, a class `PublicHostnameQuestion` as the value
--     `public_hostname`; Interview/Engine: interview/engine.py (`run`); Interview/Assemble: the
--     validation of `InterviewAnswers`; Interview/Prompt: interview/prompt.py. Proofs:
--     Interview/Hostname, Interview/Sound, Interview/Canned, Interview/Complete,
--     Interview/Prompted, Interview/Proxies, and for an operator who answers every prompt
--     Interview/Cooperative, Interview/Assembled, Interview/Finish.
--   Templates/Filters: the filters of templates/__init__.py; Templates/Engine: its environment, as
--     a parameter `Render`.
--   Generators/Domain, Generators/DnsRecords: generators/dns_records.py; Generators/FirewallRules:
--     generators/firewall_rules.py; Generators/Documents: installer.py, runbook.py and
--     scripted_config.py; Generators/Payloads, Generators/All: `generate_all` of
--     generators/__init__.py. Generators/Disk is the interface to the file system, with its laws
--     and a disk in memory that meets them. Proofs: Generators/Addresses, Generators/Records,
--     Generators/Hosts, Generators/Values, Generators/Templates, Generators/Rounds, Generators/Loop,
--     Generators/Written, Generators/Working.
--   Cli/Terminal, Cli/Options, Cli/Report, Cli/Commands: cli.py; Cli/Discover: its call of the
--     aggregator; Cli/Documents: its documents, by the models and PyYAML. Proofs: Cli/Exits,
--     Cli/Accepts, Cli/Announced, Cli/Generated, Cli/Emitted, Cli/Plans, Cli/Overrides, Cli/Saved, Cli/Workflow
--     for several commands on one disk, and Cli/Session for `plan` on a machine, from the probes to
--     the plan.
--   Discovery/Host: what the probes read from a host; Discovery/System, Docker, Network, Dns, Duo,
--     TimeSync, Tls and Firewall: the probe of discovery/ of that name; Discovery/Sntp:
--     `_query_ntp_offset` of discovery/time_sync.py; Discovery/Aggregator: `collect` of
--     discovery/aggregator.py; Discovery/Machine: the probes that it starts; Discovery/Timed: how
--     long the probes with sequential requests take. Proofs: Discovery/Commands and
--     Discovery/Tried on the outcomes of commands, Discovery/Sections, Discovery/Realms,
--     Discovery/Rows, Discovery/Peers, Discovery/Reported, Discovery/Resolution, Discovery/Clock,
--     Discovery/Observed, Discovery/Budget, Discovery/Dropped, Discovery/Storable,
--     Discovery/Collected, Discovery/Whole, and for all probes with the rules together
--     Discovery/Egress, Discovery/Shielded, Discovery/Offset, Discovery/Legible, Discovery/Ready,
--     Discovery/Accepted.
--   Base: results and exceptions (`Result`), stateful code that raises (`Exec`, which keeps the
--     state after an exception), `str` operations, `sorted`, `repr` and number formats, `float`
--     with its rounded sums and differences, JSON.
--   Examples: sample plans, tests that compute, and one run of each result.
--
-- State and errors. A command acts on a `World`: the disk and the two output streams. `sys.exit`
-- and `raise` are the `err` of a `Result`. A provider of interview answers acts on any state and
-- may raise. The interview's loop is recursion on the list of questions. There are two fuels: that
-- of `show` bounds the digits of a count by the count plus one, and a lemma in Base/Format shows
-- that more fuel gives the same digits; that of the rounding of floats is the number itself, and a
-- lemma in Base/Arithmetic shows that it is enough to leave 53 bits.
--
-- Bounds of the models. Counts are natural numbers, and a network is the text that `str` gives for
-- it. `int()` is modelled on ASCII digits, `repr` takes all characters above U+00AD for printable,
-- and the message of `_require_one_of` leaves out the answer. An answer that is none of the shapes
-- that the questions tell apart is `other`. The conversions that pydantic makes from other shapes
-- are left out, since the questions' validators have refused those shapes by then. A set of
-- overrides is the list of its members. A path is a text, a directory's without a slash at its end.
-- A document's mapping has texts for keys, each once, and keys that
-- read as the same port are kept apart. The reader of quoted YAML scalars is for scalars on one
-- line, and refuses line breaks, which YAML folds, and the characters that YAML forbids.
--
-- What a command prints and what a file holds may be no text in the locale's encoding, which raises
-- `UnicodeDecodeError`; a command that cannot be run or exceeds its time is one outcome. Each part
-- of a certificate is a value or the exception that its decoding raises.
--
-- A float is a sign, a mantissa and a power of two; sums and differences are rounded to 53 bits, to
-- the nearest and then to even, without overflow and without the limit on small exponents, which
-- the times of the clock's probe do not reach.
--
-- Parameters: rendering a Jinja2 template (`Render`), documents on the whole (`Codec`), which
-- Cli/Documents makes from PyYAML and json (`Texts`) and pydantic's conversions of scalars
-- (`Scalars`), the provider of answers, the disk (`Disk`), what a host answers, its exchange with a
-- time server included (`Host`), the handshake and the decoding of certificates (`Tls`),
-- dnspython's lookups (`Resolver`), the HTTPS requests, and the prompts of questionary and
-- `ip_network` (`Dialogue`). The commands take the discovery of a snapshot as an argument.
--
-- Time in discovery is in milliseconds; a probe is its duration, which may be endless, and its
-- result; the duration of the network's and of Duo's is the sum of that of their requests, and a
-- timeout makes it end. A thread that was cut off runs on, which is not modelled.
--
-- Not modelled: sockets, click's parsing of the command line, and the text of the templates.
pub mod Base
pub mod Models
pub mod Validation
pub mod Interview
pub mod Templates
pub mod Generators
pub mod Cli
pub mod Discovery
pub mod Examples
