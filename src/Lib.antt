-- ===== src/Lib.antt =====
-- iamzero: least-privilege policies from the AWS calls that a program makes.
--
-- A client sends the AWS calls of a program to the collector (cmd/collector), over HTTP or an SQS
-- queue.  For each of them the detective (pkg/events) finds or makes the finding of the role, asks
-- the advisor (pkg/recommendations) for policies that would allow the call, stores the call as an
-- action and rebuilds the document of the finding from its enabled actions.  The console (cmd/console)
-- shows findings and lets a user edit actions and resolve findings.  The auditor (pkg/audit) reads
-- roles and CDK resources, and pkg/cloudtrail turns an audit log into events.  The apply command
-- (cmd/cli) has an applier edit the source of a Terraform or CDK project by a finding.
--
-- Files, each with the code that it models:
--   Arn              pkg/recommendations/arn.go: GetRoleOrUserNameFromARN, ExtractRoleARNFromSession
--   Policies         pkg/policies: the data; Decoding is StringOrStringArray.UnmarshalJSON,
--                    Statements IAMStatements.UnmarshalJSON and Scan
--   Recommendations  the data of pkg/recommendations; Template is what json_recommendations.go uses
--                    of html/template and parseResourceFromTemplate, Table the templates of
--                    recommendations.go, Advice CreateAdviceFromEvent and Advise, Actions action.go,
--                    Findings finding.go
--   Storage          the interfaces of pkg/storage; Noop and Memory are event_noop.go,
--                    finding_inmemory.go and action_inmemory.go, Bolt is finding_bolt.go and
--                    action_bolt.go over the calls of the storm library, Postgres the three
--                    storages over their SQL statements, and postgres.go
--   Audit            role.go, links.go and the role storage of pkg/audit; Resources is
--                    GetPhysicalIDFromARNResource, GetByPhysicalID and the work of cloudformation.go
--                    on one stack, Loading LoadResources of auditor.go and
--                    LoadCloudFormationStacks over the clients of AWS, Fixture fixture.go
--   Detective        AnalyseEvent of pkg/events/detective.go
--   Http             api/io
--   Console          the handlers of cmd/console/app/api
--   Collector        cmd/collector/app/routes.go, HandleSQSMessage of sqs_server.go, and
--                    internal/middleware/collector_token_auth.go; Queue is the rest of
--                    sqs_server.go as a step relation, Start what collector.go has the auditor do
--   Cloudtrail       event_from_cloudtrail.go and aggregator.go of pkg/cloudtrail; Query is
--                    GetActionsForRole of cloudtrail.go, over the answers of Athena, Scan Exec of
--                    cmd/cli/commands/scan.go
--   Commands         Local is Exec of cmd/cli/commands/local.go over package ini and the disk
--   Tokens           pkg/tokens: Memory is inmemory_token.go, Postgres postgres_token.go, Dynamodb
--                    dynamodb_token.go and Factory factory.go; Random is pkg/crypto/random_token.go
--   Health           pkg/healthcheck/handler.go
--   Service          pkg/service: service.go and the goroutine of admin.go, as a step relation
--   Config           pkg/config/env_file_parser.go
--   Applier          pkg/applier/applier.go; Command is cmd/cli/commands/apply.go, Diff diff.go, Cdk
--                    pkg/applier/cdk/cdk.go, and Terraform pkg/applier/terraform/terraform.go over
--                    a record of what it calls of hclwrite, the disk and package path: Files opens
--                    files, Modules is TerraformDFS, State reads the state file, Findings is
--                    calculateTerraformFinding, Resources and References look resources up, Editing,
--                    Policies and Plan edit the blocks, Operations are the methods of PolicyApplier
--                    over the disk
--   Prelude          shared helpers; Outcome is the result of a call: a value, an error or a panic
--   Runtime          what stands outside a call (identifiers, the clock, the parser of ARNs), and
--                    the state that calls share: that of the storage, and how many identifiers have
--                    been drawn and times been read
--   Samples          data of the tests; the files called Tests hold runs and applications
--
-- A call that changes a state is a function from the state to an outcome and the state that it
-- leaves, also where it fails (Prelude.Outcome.Exec).  A handler returns the list of the responses
-- that it writes.  An error wrapped by errors.Wrap is a constructor of its own, which errors.Cause
-- takes off, as that package documents.  Loops are structural recursion over the lists that the
-- source ranges over, and need no fuel, but for the search of Terraform modules: there, fuel is used
-- up by a file inside a file, and running out of it is the overflow of the stack, which a fuel above
-- the depth of the modules excludes.  The loop that waits for a query takes the answers of Athena as
-- a list, and gives none where they run out.  Numbers are unbounded: the code does no arithmetic
-- that could overflow but the count of a finding's actions.
--
-- Outside the model: uuid and time (functions of the number of earlier calls), arn.Parse, rand.Int,
-- the storm library and the hash of an event (parameters), encoding/json and YAML (the functions
-- take what they decode to), hclwrite, logging, the order in which Go ranges over a map (a parameter
-- where events are analysed; maps of the appliers are in the order of their first writes), and the
-- clients of AWS and of Postgres (one
-- operation for each call).  The goroutines of a group in the auditor end in an order that is
-- a parameter, after a failure some of them only, and Wait returns the first error, as package
-- errgroup documents; the poller and the workers of the SQS queue interleave in any order, where a run of the
-- handler is one step, and so do RunAndThen, the signals and the admin server, where Set of the
-- health check is two steps.  Not modelled, since they are set-up or output: the constructors of
-- clients, flags, the HTTP servers and their routes, the Close methods, logging and the printing of
-- diffs.
pub mod Prelude
pub mod Arn
pub mod Policies
pub mod Recommendations
pub mod Storage
pub mod Audit
pub mod Detective
pub mod Runtime
pub mod Health
pub mod Service
pub mod Samples
pub mod Tokens
pub mod Http
pub mod Console
pub mod Collector
pub mod Cloudtrail
pub mod Config
pub mod Commands
pub mod Applier
