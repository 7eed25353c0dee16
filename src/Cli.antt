-- ===== src/Cli.antt =====
-- cli.py: the commands, over the files of a machine and what they print. `typer` parses the
-- arguments; a line on the console is the values that it shows, and its layout and colours, and those
-- of the tables of `rich`, are left out. The files are those of keys and those of databases; their
-- permissions and the creation of directories are left out.
pub mod Machine
pub mod Commands
pub mod Daemon
pub mod Benchmark
pub mod Writes
pub mod Keys
pub mod Survival
