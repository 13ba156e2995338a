-- ===== src/Lib.antt =====
-- BuilderHub's public API (cmd/server): a gRPC server with an HTTP gateway in front, which keeps
-- users, organizations, memberships and API keys in Postgres and builders and templates in a
-- Kubernetes cluster, one namespace for each organization.
--
-- The parts and their files. A call enters through an interceptor, which reads a bearer token,
-- resolves it to a principal and decides whether the principal may call the method; the handler
-- then checks the membership of the principal's user in the organization and runs SQL statements or
-- calls of the cluster.
--
-- Common, Common.Int, Common.Lists: names of the library, the Go integers, rows of tables as lists.
-- Text, Text.Trim, Text.Laws: functions of Go's package strings (TrimSpace, Split, CutPrefix,
--   ToLower).
-- Status: status codes and messages of grpc.
-- World.Tables: the tables of migrations/*.up.sql. World.Sql: what all SQL statements share.
-- World.External: the libraries and services, as the record `Environment` that every handler takes.
-- World.Effect: a handler is a function from a state to an answer and a state. The state has the
--   tables, the cluster, the two clocks and the number of calls made so far, which an outage refers
--   to.
-- Api.*: messages and method names of api/gen/buildapi/v1.
-- Auth.Context, Auth.Scopes, Auth.Keys, Auth.Jwt, Auth.Middleware: the files of internal/auth with
--   those names; Auth.Encoding: base64 and hexadecimal text. Auth.Service, Auth.Sql,
--   Auth.Validation: internal/auth/handler.go, its statements, and the two checks of
--   CreateUserApiKey.
-- Organizations.*: internal/organizations/service.go, with the slug expression (Slug), the SQL
--   statements (Sql), the assembled UPDATE statement (Update) and the handlers (Service).
-- Builders.Stub: internal/buildapi, which nothing refers to.
-- Membership: ensureOrgMember of internal/server/handlers.go and internal/templates/service.go.
-- Cluster: internal/k8s. Builders.*: internal/server/handlers.go. Templates.*:
--   internal/templates/service.go. Their modules Rpc send a call through the interceptor, as the
--   generated *_grpc.pb.go do, and so do Auth.Rpc and Organizations.Rpc. Gateway.Edge: the
--   functions of cmd/server/main.go.
-- Gateway.AuthProxy, Gateway.BuilderProxy, Gateway.OrganizationProxy, Gateway.TemplateProxy: the
--   routes of api/gen/buildapi/v1/*.pb.gw.go, from the parameters of a path and a body to the call
--   of a service; the children Local have the functions for a server in the same process.
--   Gateway.Runtime: what these files use of grpc-gateway, as the record `Runtime`, and the steps
--   that they repeat. A client that a route calls is a function; Gateway.Targets.Members puts the
--   server of this program in its place. Api.Zero: the zero values that bodies are decoded into.
-- Gateway.Targets.*: what the routes ask the services for (AuthRoutes, BuilderRoutes,
--   OrganizationRoutes, TemplateRoutes, Services), for whom (Members), and their patterns side by
--   side (Table, Apart). Gateway.Http: the HTTP server that main starts, with the routes of the four
--   services behind its mux; Gateway.Http.Serving: what a request does to the state. Gateway.Login: a
--   session of a browser. Auth.Service.Session, Organizations.Service.Deletion,
--   Organizations.Rpc.Access: what a session is good for, and deletions. Organizations.Service.Listing, Organizations.Service.Updating: listings and updates.
-- Invariant.*: well-formed tables: the rows (Rows), the statements (Statements), the handlers
--   (Handlers, RegisterUpdate), the calls (Calls, Served) and histories of calls (Reachable);
--   OrgRows, OrgCalls and OrgServed follow the rows of one organization across the calls of others;
--   Revoked follows a revoked key through a history. Tables says what well-formed tables are, Slugs
--   treats the unique slug across an UPDATE, and Runs lets the statements of several requests run in
--   any order.
-- Server: the gRPC server of cmd/server/main.go, which registers the four services; a call is one of
--   theirs. Server.Passing: how a call passes the interceptor. Server.ReadOnly, Server.Escalation,
--   Server.Refused: what an API key cannot do. Server.Steps: the count of the calls of outside services. Server.Members: whom the server answers about an organization.
--   Server.Isolation: what a call does in the namespaces of others, with
--   Cluster.Isolation for what the cluster promises. The modules Frame and Isolation of the
--   services' modules Rpc have the share of each service.
-- Startup, Startup.Serving, Startup.Cases: main of cmd/server/main.go to its wait for a signal, with
--   internal/db, NewClient and restConfig of internal/k8s, and Register*FromEndpoint of the gateway.
--   The libraries that connect are the record `Host`.
-- Tests.*: a small environment, runs of the definitions, and instances of the theorems.
--
-- A Go function keeps its name in lower case with underscores (CreateUserApiKey is
-- `create_user_api_key`); an `err` of Go is the constructor `err` of `Result`. A handler of the
-- model runs to its end before the next one; only Invariant.Runs mixes their statements. Every loop
-- of the program runs over a list or a text, so the definitions are structural recursions and no
-- fuel occurs. Log lines are left out.
--
-- Parameters, since the repository does not have their code: UUIDs, error texts and the order of
-- rows in Postgres, the random source, SHA-256, bcrypt, the signing and parsing of tokens, the
-- Kubernetes client and its custom resources, quantities, and grpc-gateway with its decoders. An
-- outage may fail any SQL statement; theorems that need its absence say so.
--
-- The choice of a route by the mux of grpc-gateway is the parameter `ServeMux`. How it makes the context
-- of a call is the parameter `annotate_context` of `Runtime`, which takes the options that main gives to
-- the mux (`gw_options` of Gateway.Runtime); `Annotates` of Auth.Middleware.Bearer is what the theorems on
-- cookies rely on.
--
-- Not modelled: the wire format, headers and trailers of gRPC answers, signals, shutdown and logging
-- of main, streams beyond the interceptor, what a handler reads while other requests write, and the
-- deployment files.
pub mod Api
pub mod Auth
pub mod Builders
pub mod Cluster
pub mod Common
pub mod Gateway
pub mod Invariant
pub mod Membership
pub mod Organizations
pub mod Server
pub mod Startup
pub mod Status
pub mod Templates
pub mod Tests
pub mod Text
pub mod World
