-- ===== src/Lib.antt =====
-- Verification of torc_scheduler, the scheduler of a rack of switches and servers on mesos.
--
-- The program is a set of threads around one serving thread. The serving thread (src/state/state.rs)
-- owns the list of tasks (src/state/task_list.rs) and the list of nodes (src/state/node_list.rs) and
-- answers the messages of the others, one at a time. The others are: the mesos callbacks
-- (src/scheduler/scheduler_impl.rs), which match requested tasks with offers and follow the states that
-- mesos reports; the syncing and the cleaning thread (src/state/state.rs), which register what runs and
-- drop what has not been heard of; the health checker (src/health/run_health_checker.rs), which keeps
-- system services running; and the HTTP interface (src/api/run_api.rs). They call consul, a network
-- agent and mesos (src/collaborator).
--
-- The files:
--
--   Prelude, Prelude/*       names of the libraries, lists, texts, integers and the splitting of texts.
--   Machine/I64, F64         the sum of two i64, wrapping as in a release build, and the comparison of
--                            two f64, given as their patterns of 64 bits. The program computes with no f64.
--   HashMap, HashMap/Keyed   std's HashMap as the list of its entries, in the order in which it iterates.
--                            That order is open: theorems are about every list without repeated keys.
--   Records                  Task, Volume, SLA, Node and TaskState.
--   TaskList, TaskList/*     src/state/task_list.rs: a function per method; View is its abstract view.
--   NodeList, NodeList/View  src/state/node_list.rs, likewise.
--   Server, Server/*         src/state/state.rs: State and the messages; Handlers has the private
--                            functions of StateManager under their names with `handle_` before them;
--                            Serve is the loop of start_serving; Refinement is the abstract
--                            specification, Answers that of the answers, Validity the invariant, Panics
--                            is about the end of the loop, Settings about the fields that no message
--                            changes, Alike and Contents about what is held without the order of the
--                            maps: a quotient of the valid states.
--   Client, Client/*         a thread among others. An action runs in a world: the state of the serving
--                            thread, the clock, the poisoned mutexes, the calls made so far, and an
--                            environment. Before each message the environment may have any messages of
--                            other threads served, set the clock and poison mutexes, so a theorem about
--                            every world is one about every interleaving.
--                            Quiet is the case in which nothing else happens and no mutex is poisoned;
--                            Dead the one in which the serving thread has panicked. StateManager has
--                            the public send_ and request_ methods; Announce is about
--                            send_announce_task, Stored about loops that store, Lock about the mutexes
--                            of the routes.
--   Background, Background/* start_syncing and start_cleaning of src/state/state.rs, one round each: Sync
--                            and Known are about the first, the others about the second.
--   Scheduler, Scheduler/*   src/scheduler/scheduler_impl.rs: Offers is `offers`, Container what it
--                            builds from a task, Update is `update` with src/utils/docker.rs (Outcome:
--                            a task has ended; Running: it runs; Fatal: on an unknown host; Again: an ended
--                            service until it is requested again). Offers/Plan decides beforehand what
--                            `offers` is to do, Offers/Matched and Offers/Outcome are about
--                            `offers` against it, Offers/Fits about one launch among other threads, Offers/Answerless and Offers/Answered about
--                            the answers to the offers, Offers/Refused about a refused launch; Started is about a task
--                            from its offer to the report that it runs.
--   Config, Config/*         src/utils/config.rs: what is read of the YAML configuration; Settings has what
--                            src/state/state.rs and src/health/run_health_checker.rs read themselves,
--                            Values what is relied on of the YAML library, Written a service written out.
--   Start, Start/*           the constructor of StateManager, load_node_list, src/main.rs and
--                            src/scheduler/run_scheduler.rs; Loaded is about the constructor, Served about
--                            the start and the first round of the health checker together, Stopped about
--                            the threads once the serving thread has panicked.
--   Health, Health/*         src/health/run_health_checker.rs: what comes before its loop (Prepared) and
--                            a round (Kept); Each is about a service for each node.
--   Collaborator, Mesos      src/collaborator: the calls of other systems as data, in order; and the
--                            messages of the mesos crate, with the fields that the program uses.
--   Collaborator/Commands    src/collaborator/ipmi and src/collaborator/calico: commands run on nodes;
--                            Client/Accepting is the case in which calls of other systems succeed.
--   Api, Api/*               the handlers of src/api/run_api.rs; Routes has the table of routes, Reading is
--                            about those that only read, Groups about /start/group, Deleted about a
--                            service from the request to delete it to the report of its end, Shut about
--                            a route whose mutex is poisoned.
--   Program, Program/*       the threads that src/main.rs and src/state/state.rs start, together: a step is
--                            one round of a loop, one callback or one request, and main is over when the
--                            health checker has stopped. Messages, Rounds, Callbacks and Requests are
--                            about what each action makes of the world, Reached about all that can be reached, Ended and Over about the end of the program,
--                            Lost about a launch that mesos refuses.
--                            Client/Moves, Client/Needs, Client/Asked, Client/Answerless and Client/Closed have
--                            the rules for actions.
--   Tests/*                  runs on concrete inputs.
--
-- What leaves the code's hands is a parameter: the YAML and the JSON library and the router (their
-- functions), the clock, the other threads, and whether a call of another system succeeds. A panic of a
-- thread is an outcome; what was done before it stays done. Every loop of the model is recursion on the
-- list that the code iterates over, so there is no fuel; the endless loops of the threads are modelled by
-- their rounds.
--
-- Not modelled: the libraries for YAML, JSON, HTTP and the command line, printing, sleeping, the mutexes
-- of the two lists, which only the serving thread takes, and that of the mesos client, under which nothing
-- panics.
pub mod Prelude
pub mod Machine
pub mod HashMap
pub mod Records
pub mod TaskList
pub mod NodeList
pub mod Mesos
pub mod Program
pub mod Collaborator
pub mod Server
pub mod Client
pub mod Background
pub mod Config
pub mod Start
pub mod Scheduler
pub mod Health
pub mod Api
pub mod Tests
