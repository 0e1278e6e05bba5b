-- ===== src/Lib.antt =====
-- mq_container: a model of the programs that run an IBM MQ queue manager in a container, and the
-- theorems about it.
--
-- The program. runmqserver is process 1 of the container. It checks the license, prepares the volumes,
-- creates and starts the queue manager by commands of MQ, mirrors logs to the console, and waits for
-- a signal to stop. chkmqstarted, chkmqready and chkmqhealthy are run from time to time by the
-- platform; runmqserver signals to them by two files. The parts, and the files that model them:
--
--   Main        doMain of cmd/runmqserver/main.go as the sequence of the calls it makes, with IsEnabled
--               of internal/simpleauth/simpleauth.go. An operation fails or not as an argument says.
--   Signals     signalHandler of cmd/runmqserver/signals.go with the end of doMain: a step relation
--               over the main thread, the handler's goroutine and the one that stops the queue manager.
--   Qmgr        cmd/runmqserver/qmgr.go: which commands run, with which arguments. internal/command is
--               the shell that the functions take: what a command gives after those before it.
--   QmName      pkg/name/name.go and replaceCharsInQMName: the queue manager's name and its directory.
--   MqIni       pkg/mqini/mqini.go: what dspmqinf says about a queue manager, and its directories.
--   MqVersion   internal/mqversion/mqversion.go: the versions of MQ, read, written and compared.
--   MqscRedact  internal/mqscredact/mqscredact.go: Redact, which takes secrets out of MQSC text.
--   Logging     cmd/runmqserver/logging.go: the settings of the console log and the mirror functions.
--   LogRotation pkg/logrotation/logrotation.go: RotatingLogger on a directory of files.
--   Mirror      cmd/runmqserver/mirror.go: mirrorLog, one system call after the other, interleaved with what
--               the queue manager does to the log and with the order to stop.
--   Keystore    internal/keystore/keystore.go: the methods of KeyStore, and how lists of labels are read.
--   Tls         internal/tls/tls.go and tls_web.go: keys and certificates from the mounted directories, put
--               into the key stores of Keystore, and the TLS settings of the queue manager.
--   Ha          internal/ha/ha.go: the settings of Native HA and the files that are made of them, with the
--               key stores of Tls.
--   Machine     the commands, files and errors that Keystore and Tls act on, with internal/command.
--   Ready       internal/ready/ready.go: the two files of the signals, and the status in dspmq's output.
--   ChkMq       cmd/chkmqstarted, cmd/chkmqready and cmd/chkmqhealthy: the probes, on the files of Ready.
--   License     cmd/runmqserver/license.go: the check of the license.
--   Metrics     internal/metrics/update.go: the map of metrics, its updates from publications, and the
--               goroutine that gathers them; exporter.go: what Prometheus describes and collects.
--   TlsWatch    internal/metrics/tlswatch.go: the certificate of the metrics server, over updates from disk.
--   Fips        internal/fips/fips.go: whether FIPS cryptography is enabled.
--   Base        what they share: tests on numbers, lists, and the functions of Go's strings and strconv
--               packages that the program calls. A string is the list of its code points.
--
-- State is passed on explicitly: the files of a rotating log, the files of the signals, the variables of
-- Redact, the commands that ran, the process of Signals. A Go error is a case of a result, without its
-- message. An environment is a function from names to optional values. What comes from outside, such as
-- the output of a command, the clock, the host's name or a fault of the file system, is an argument.
--
-- Numbers are natural numbers; an int that may be negative is the integer type of Base.Decimal, and
-- where int64 may wrap around (Base.Int, Base.Decimal) the wrap or the range error is written out.
-- Redact and its reader of parameters run on fuel, one unit for each character and one more, since each
-- round takes a character at least; so does the loop of Tls over the blocks of a PEM file. All other loops
-- recur on a list or on a counter of the source; mirrorLog runs for as long as a list of events goes on.
--
-- Not modelled: messages to the log and to the termination file, file modes, vendored code, the HTTP
-- server of the metrics with its audit log, the text of templates, and the parts that this development
-- does not reach: volumes, the passwords of simple authentication, the web server, the check for a single
-- process, the developer server, and what is read of the container's runtime. Cryptography is a parameter
-- of Tls, and the tools of MQ are one of Keystore. A counter of the metrics may be given a negative value,
-- at which client_golang panics.
-- The Go functions on strings are modelled for the characters on which the results can depend: letter
-- case is that of ASCII, with the other code points that fold to an ASCII letter.
pub mod Base
pub mod MqscRedact
pub mod LogRotation
pub mod MqIni
pub mod MqVersion
pub mod Ready
pub mod ChkMq
pub mod License
pub mod Fips
pub mod Ha
pub mod QmName
pub mod Signals
pub mod Logging
pub mod Main
pub mod Qmgr
pub mod TlsWatch
pub mod Metrics
pub mod Machine
pub mod Keystore
pub mod Tls
pub mod Mirror
