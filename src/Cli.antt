-- ===== src/Cli.antt =====
-- src/mbdeploy/cli.py and src/mbdeploy/builder.py: the commands. Parsing the command line is
-- `argparse`, which is not part of the repository: a command begins with its arguments.
pub mod Builder
pub mod Connect
pub mod Deploy
pub mod Listing
pub mod Serve
pub mod Service
