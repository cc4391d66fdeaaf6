-- ===== src/Calls/Entry.antt =====
-- The functions of src/calls that make a future or a stream, in its first state.
use onlyio.Base.{ℕ}
use onlyio.Calls.Accept.{AcceptFuture, AcceptStream, AcceptStreamState}
use onlyio.Calls.Read.{ReadFuture, ReadStream, ReadStreamState}

abbrev pub accept : ℕ → AcceptFuture
accept listen_fd = AcceptFuture.pending listen_fd

-- `AcceptStream::new`, which `accept_stream` calls
abbrev pub new_accepts : ℕ → AcceptStream
new_accepts listen_fd = record { listen_fd = listen_fd; state = AcceptStreamState.init }

abbrev pub read : ℕ → ReadFuture
read fd = ReadFuture.init fd

-- `ReadStream::new`, which `read_stream` calls
abbrev pub new_reads : ℕ → ReadStream
new_reads fd = record { fd = fd; state = ReadStreamState.init }
