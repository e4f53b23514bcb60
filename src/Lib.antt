-- ===== src/Lib.antt =====
-- SentriMeshAstra: the platform's decisions about security incidents, as they are taken by the
-- Python backend under backend/app.
--
-- PARTS. A connector's event becomes an incident, an incident gets a severity, a severity and an
-- action type get an autonomy tier, and the tier says whether the response agent executes the
-- action by itself or asks a person. The login endpoint and the detection agent count failures in
-- Redis windows. What is here, with the files that it is about:
--   Models: the tables and enumerations of backend/app/models.py, and the Redis keys.
--   Json: the JSON values of payloads, contexts and enrichments, with Python's dict operations.
--   Policy: classify_action and severity_from_signals of backend/app/policy/engine.py.
--   Window: the sliding-window counters of backend/app/state_store.py.
--   Bus: publish and the audit log of backend/app/bus.py, with one constructor for each channel.
--   Executor: the two executors of backend/app/connectors/executor.py over an abstract host.
--   System: the state that the response agent and the routers share.
--   Response: backend/app/agents/response.py (on_classified_incident, _execute, rollback).
--   Guardian: backend/app/agents/guardian.py, and the connector health of routers/overview.py.
--   Auth: backend/app/auth.py, ratelimit.py and routers/auth.py (accounts, sessions, the login and its
--     lockout); Attempts compares one login, and Refinement runs of them, with a specification that forgets
--     nothing.
--   Connectors: backend/app/connector_auth.py, routers/connectors.py and routers/ingest.py.
--   Detection: backend/app/agents/detection.py, with the last-value store (LastValue) and the guards of geo.py;
--     Continues, Belongs, Campaigns and Consistency are about its deduplication, Threshold about the failed
--     logins, Travel about two sign-ins, and Kept about what its handler keeps.
--   ThreatFeed: backend/app/connectors/threat_feed.py; Sources has the six judgements, and Bodies how they
--     read JSON.
--   Pipeline: backend/app/agents/threat_intel.py and orchestrator.py.
--   Formats: backend/app/connectors/log_formats.py. Intake: backend/app/agents/integration.py.
--   Overview: backend/app/routers/overview.py.
--   Exposure: backend/app/agents/exposure.py, connectors/exposure_scanner.py and vuln_scanner.py.
--   Reporting: backend/app/agents/reporting.py, with llm.py, notifications/email.py and routers/reports.py.
--   Tenants: the rest of backend/app/routers/tenants.py.
--   Listening: the subscriptions and the loop of backend/app/bus.py.
--   Fleet: backend/app/agents/runner.py: the eight agents on one bus over all the tables. Schedules has its
--     two loops and the requests to the routers of connectors, ingest and reports, Work puts these, the turns
--     of the bus, the requests to Control and the onboarding of companies in any order, Safety has what
--     holds throughout, Load and Ends that the agents come to rest, Lasting and Outcome what becomes of an
--     incident, and Consistency what the detection agent's cache has to do with the table.
--   Startup: backend/app/config.py, security_headers.py and the warnings of main.py.
--   Listings: the lists of backend/app/routers (incidents.py, reports.py, activity.py, admin_audit.py and
--     approvals.py). Realtime: backend/app/realtime.py and routers/ws.py.
--   Control: decide_approval (backend/app/routers/approvals.py), set_kill_switch (tenants.py) and
--     rollback_action (actions.py); Safety holds the invariants over whole runs of events, Routes
--     what single requests do and Refused what an HTTP error leaves.
--
-- STATE. Rows are records and tables are lists in insertion order; a select with a primary key is
-- the first row that passes its test, and an assignment to that row is update_first. A coroutine is
-- an action on the state that may raise (Prelude.Effects); what was written before a raise stays
-- written. A handler or request runs from its start to its end with no other between, so the
-- interleavings at the awaits of two coroutines are not modelled. Ids are natural numbers, since
-- uuids are only compared; fresh ids and the time come in as arguments, and an insertion under a
-- taken primary key raises. Times are whole seconds.
--
-- OUTSIDE. The host of the executor (iptables, ipaddress, repr) is a record, and what the code
-- relies on iptables for is the record Executor.Iptables.Documented, which Executor.Sample meets.
-- passlib and jose are the record Auth.Accounts.Crypto, with Auth.Sessions.Documented for the expiry of
-- tokens; SHA-256 is an argument of the definitions in Connectors. Lower case and white space are
-- those of ASCII. Python's int of a text is an argument of the lookups. Python's str of a
-- value, ipinfo.io, haversine_km of geo.py (a formula on floats) and the prose of a travel
-- incident are the record Detection.Events.Outside. The answers of the threat feeds, of OSV,
-- of GitHub and of the search engine are statuses with JSON bodies. The text of the language
-- model and whether a mail arrives are arguments.
--
-- BOUNDS. Only Fleet.drain takes fuel, fourteen turns for a pending message, which drain_ends shows to be
-- enough; every other loop is over a list.
--
-- NOT MODELLED. FastAPI's routing and validation, SQLAlchemy's sessions, the Redis client, the
-- delivery of mails, logging, the call of the language model, the alembic migrations and the frontend:
-- input, output and glue around the decisions.
pub mod Prelude
pub mod Json
pub mod Models
pub mod Policy
pub mod Window
pub mod Bus
pub mod Executor
pub mod System
pub mod Response
pub mod Control
pub mod Guardian
pub mod Auth
pub mod Connectors
pub mod Detection
pub mod ThreatFeed
pub mod Pipeline
pub mod Formats
pub mod Intake
pub mod Overview
pub mod Exposure
pub mod Reporting
pub mod Tenants
pub mod Listening
pub mod Fleet
pub mod Listings
pub mod Realtime
pub mod Startup
